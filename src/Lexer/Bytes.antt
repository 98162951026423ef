-- ===== src/Lexer/Bytes.antt =====
-- pktbaffle/src/lexer.rs: the bytes of a filter, the classes of ASCII that the lexer asks for, and the
-- standard library's reading of an unsigned number.
use Prim.Native.Char.{code}
use Prim.Native.String.{String}
use pktbaffle.Prelude.{
  ℕ, suc, ◌+◌, ◌-◌, ◌*◌, List, [], ◌∷◌, Bool, ◌||◌, ◌&&◌, Option, none, some, ltb, leb, ◌==◌,
  if◌then◌else◌,
}

-- The bytes of an ASCII text.
abbrev pub codes : String → List ℕ
codes String.[] = []
codes (String.◌∷◌ c s) = code c ∷ codes s

abbrev pub between : ℕ → ℕ → ℕ → Bool
between lo hi b = leb lo b && leb b hi

abbrev pub is_ascii_digit : ℕ → Bool
is_ascii_digit b = between b'0' b'9' b

abbrev pub is_ascii_alphabetic : ℕ → Bool
is_ascii_alphabetic b = between b'a' b'z' b || between b'A' b'Z' b

abbrev pub is_ascii_alphanumeric : ℕ → Bool
is_ascii_alphanumeric b = is_ascii_digit b || is_ascii_alphabetic b

abbrev pub is_ascii_hexdigit : ℕ → Bool
is_ascii_hexdigit b = is_ascii_digit b || between b'a' b'f' b || between b'A' b'F' b

-- Space, tab, line feed, form feed and carriage return.
abbrev pub is_ascii_whitespace : ℕ → Bool
is_ascii_whitespace b = b == 32 || b == 9 || b == 10 || b == 12 || b == 13

-- `char::to_digit`.
abbrev pub digit_value : ℕ → Option ℕ
digit_value b =
    if is_ascii_digit b
    then some (b - b'0')
    else (if between b'a' b'z' b
        then some (b - b'a' + 10)
        else (if between b'A' b'Z' b then some (b - b'A' + 10) else none))

abbrev pub below : ℕ → Option ℕ → Option ℕ
below radix none = none
below radix (some d) = if ltb d radix then some d else none

abbrev pub to_digit : ℕ → ℕ → Option ℕ
to_digit radix b = below radix (digit_value b)

-- How many bytes at the front satisfy the test.
unfoldable pub run_length : (ℕ → Bool) → List ℕ → ℕ
run_length p [] = 0
run_length p (b ∷ bs) = let rest = run_length p bs in if p b then suc rest else 0

-- `from_str_radix` of an unsigned type with the largest value `max`.
unfoldable pub digits_value : (radix max : ℕ) → List ℕ → ℕ → Option ℕ
digits_value radix max [] acc = some acc
digits_value radix max (b ∷ bs) acc = elim (to_digit radix b) [
  | none ↦ none
  | some d ↦ if leb (acc * radix + d) max then digits_value radix max bs (acc * radix + d) else none
]

abbrev pub unsigned : (radix max : ℕ) → List ℕ → Option ℕ
unsigned radix max [] = none
unsigned radix max (b ∷ bs) = digits_value radix max (b ∷ bs) 0

-- A sign `+` may stand before the digits.
unfoldable pub from_str_radix : (radix max : ℕ) → List ℕ → Option ℕ
unfolding digits_value
from_str_radix radix max [] = none
from_str_radix radix max (b ∷ bs) =
    if b == b'+' then unsigned radix max bs else unsigned radix max (b ∷ bs)

-- `str::split` at a byte: always one piece at least.
unfoldable pub split : ℕ → List ℕ → List (List ℕ)
split sep [] = [] ∷ []
split sep (b ∷ bs) =
    let pieces = split sep bs in
    if b == sep then [] ∷ pieces else elim pieces [ [] ↦ (b ∷ []) ∷ [] | p ∷ ps ↦ (b ∷ p) ∷ ps ]

-- `str::contains` of a byte, and how often it stands in the text.
unfoldable pub count : ℕ → List ℕ → ℕ
count c [] = 0
count c (b ∷ bs) = let rest = count c bs in if b == c then suc rest else rest
