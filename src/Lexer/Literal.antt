-- ===== src/Lexer/Literal.antt =====
-- pktbaffle/src/lexer.rs: number, IPv4 and MAC literals, and the errors of the lexer.
use pktbaffle.Prelude.{
  ℕ, suc, ◌+◌, ◌-◌, ◌*◌, ◌^◌, List, [], ◌∷◌, Bool, false, ◌||◌, ◌&&◌, Option, none, some, ltb, leb,
  ◌==◌, if◌then◌else◌, length, set, ◌⊎◌, inl, inr,
}
use pktbaffle.Prelude.{◌>>=◌}
use pktbaffle.Ast.{MacAddr}
use pktbaffle.Lexer.Token.{Token}
use pktbaffle.Lexer.Bytes.{is_ascii_digit, to_digit, from_str_radix, split, count}
use pktbaffle.Lexer.Ip6.{parse_ipv6}

pub data NumberFault : Type 0 where
  expected_digits non_octal_digit invalid_digit overflows : NumberFault

-- `LexError`, and the `ParseError`s of the lexer, each with the text and its offset. `out_of_fuel` is
-- not of the source.
pub data LexFault : Type 0 where
  unexpected_character : (offset ch : ℕ) → LexFault
  invalid_ipv4 : List ℕ → (offset : ℕ) → LexFault
  invalid_number : List ℕ → (offset : ℕ) → NumberFault → LexFault
  out_of_fuel : LexFault

pub data Lexed {ℓ} (A : Type ℓ) : Type ℓ where
  ok : A → Lexed A
  err : LexFault → Lexed A

-- It contains `::`, or two colons or more.
unfoldable pub contains_double : List ℕ → Bool
contains_double [] = false
contains_double (b ∷ []) = false
contains_double (b ∷ c ∷ bs) = (b == b':' && c == b':') || contains_double (c ∷ bs)

unfoldable pub looks_like_ipv6 : List ℕ → Bool
unfolding contains_double count
looks_like_ipv6 s = contains_double s || leb 2 (count b':' s)

unfoldable pub looks_like_mac : List ℕ → Bool
unfolding count
looks_like_mac s = count b':' s == 5

-- The prefix that sets the radix, taken off.
unfoldable pub radix_of : List ℕ → List ℕ × ℕ
radix_of (zero_digit ∷ x ∷ rest) =
    if zero_digit == b'0'
    then (if x == b'x' || x == b'X' then (rest, 16) else (x ∷ rest, 8))
    else (zero_digit ∷ x ∷ rest, 10)
radix_of raw = (raw, 10)

-- The loop over the digits.
unfoldable pub int_loop : (radix : ℕ) → List ℕ → ℕ → ℕ ⊎ NumberFault
int_loop radix [] n = inl n
int_loop radix (c ∷ cs) n = elim (to_digit radix c) [
  | none ↦ inr (if radix == 8 && is_ascii_digit c then non_octal_digit else invalid_digit)
  | some d ↦
      if ltb (2 ^ 32 - 1) (n * radix + d) then inr overflows else int_loop radix cs (n * radix + d)
]

abbrev pub int_of : List ℕ → ℕ → ℕ ⊎ NumberFault
int_of [] radix = inr expected_digits
int_of (c ∷ cs) radix = int_loop radix (c ∷ cs) 0

unfoldable pub parse_int : List ℕ → ℕ → Lexed ℕ
unfolding radix_of int_loop
parse_int raw offset = elim (int_of ((radix_of raw).0) ((radix_of raw).1)) [
  | inl n ↦ ok n
  | inr why ↦ err (invalid_number raw offset why)
]

abbrev pub mac_of : List (List ℕ) → Option MacAddr
mac_of (p0 ∷ p1 ∷ p2 ∷ p3 ∷ p4 ∷ p5 ∷ []) = do
  b0 ← from_str_radix 16 255 p0
  b1 ← from_str_radix 16 255 p1
  b2 ← from_str_radix 16 255 p2
  b3 ← from_str_radix 16 255 p3
  b4 ← from_str_radix 16 255 p4
  b5 ← from_str_radix 16 255 p5
  some (record { b0 = b0; b1 = b1; b2 = b2; b3 = b3; b4 = b4; b5 = b5 })
mac_of _ = none

unfoldable pub parse_mac_text : List ℕ → Option MacAddr
unfolding split from_str_radix
parse_mac_text s = mac_of (split b':' s)

-- The loop over the pieces of a dotted address: the octets, zero where none was written.
unfoldable pub octets_loop : List (List ℕ) → ℕ → List ℕ → Option (List ℕ)
unfolding from_str_radix
octets_loop [] i octets = some octets
octets_loop (p ∷ ps) i octets = elim (from_str_radix 10 255 p) [
  | none ↦ none
  | some n ↦ if ltb i 4 then octets_loop ps (suc i) (set octets i n) else none
]

unfoldable pub dotted : List ℕ → ℕ → Lexed Token
unfolding octets_loop split
dotted raw offset = elim (octets_loop (split b'.' raw) 0 (0 ∷ 0 ∷ 0 ∷ 0 ∷ [])) [
  | some octets ↦ ok (Token.ipv4 octets (length (split b'.' raw)))
  | none ↦ err (invalid_ipv4 raw offset)
]

-- An IPv6 address or a MAC address, if the text looks like one and is one.
unfoldable pub address_of : List ℕ → Option Token
unfolding looks_like_ipv6 looks_like_mac parse_ipv6 parse_mac_text
address_of raw = elim (if looks_like_ipv6 raw then parse_ipv6 raw else none) [
  | some addr ↦ some (Token.ipv6 addr)
  | none ↦ elim (if looks_like_mac raw then parse_mac_text raw else none) [
    | some mac ↦ some (Token.mac mac)
    | none ↦ none
  ]
]

abbrev pub numbered : Lexed ℕ → Lexed Token
numbered (ok n) = ok (Token.num n)
numbered (err e) = err e

unfoldable pub parse_numlike : List ℕ → ℕ → Lexed Token
unfolding count dotted address_of parse_int
parse_numlike raw offset =
    if ltb 0 (count b'.' raw)
    then dotted raw offset
    else elim (address_of raw) [ some t ↦ ok t | none ↦ numbered (parse_int raw offset) ]
