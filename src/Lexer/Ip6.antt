-- ===== src/Lexer/Ip6.antt =====
-- The standard library's `Ipv6Addr::from_str`, which pktbaffle/src/lexer.rs calls on a candidate.
-- A reader takes the text and returns a value with what it leaves, or fails and takes nothing.
use pktbaffle.Prelude.{
  ℕ, zero, suc, ◌+◌, ◌-◌, ◌*◌, ◌^◌, List, [], ◌∷◌, ◌++◌, Bool, true, false, not, ◌&&◌, ◌||◌, Option,
  none, some, ltb, leb, ◌==◌, if◌then◌else◌, length, replicate,
}
use pktbaffle.Prelude.{◌>>=◌}
use pktbaffle.Lexer.Bytes.{to_digit}

abbrev pub Reader : Type 0 → Type 0
Reader A = List ℕ → Option (A × List ℕ)

unfoldable pub read_given_char : ℕ → Reader (Unit {0})
read_given_char c [] = none
read_given_char c (b ∷ bs) = if b == c then some (tt, bs) else none

-- The digits of `read_number`: at most `max_digits`, of a value up to `max`.
unfoldable pub read_digits : (radix max : ℕ) → ℕ → ℕ → ℕ → Reader (ℕ × ℕ)
read_digits radix max max_digits seen acc [] = some ((acc, seen), [])
read_digits radix max max_digits seen acc (b ∷ bs) = elim (to_digit radix b) [
  | none ↦ some ((acc, seen), b ∷ bs)
  | some d ↦
      if leb (acc * radix + d) max && ltb seen max_digits
      then read_digits radix max max_digits (suc seen) (acc * radix + d) bs
      else none
]

abbrev pub starts_with_zero : List ℕ → Bool
starts_with_zero [] = false
starts_with_zero (b ∷ bs) = b == b'0'

unfoldable pub read_number : (radix max max_digits : ℕ) → Bool → Reader ℕ
unfolding read_digits
read_number radix max max_digits allow_zero_prefix text = do
  r ← read_digits radix max max_digits 0 0 text
  (if r.0.1 == 0 || (not allow_zero_prefix && starts_with_zero text && ltb 1 r.0.1)
      then none
      else some (r.0.0, r.1))

-- `read_separator`: the separator comes before every item but the first.
unfoldable pub read_separator : {A : Type 0} → ℕ → ℕ → Reader A → Reader A
unfolding read_given_char
read_separator sep zero f text = f text
read_separator sep (suc index) f text = do r ← read_given_char sep text; f (r.1)

abbrev pub octet : ℕ → Reader ℕ
octet i = read_separator b'.' i (read_number 10 255 3 false)

unfoldable pub read_ipv4_addr : Reader (ℕ × ℕ)
unfolding read_separator read_number
read_ipv4_addr text = do
  a ← octet 0 text
  b ← octet 1 (a.1)
  c ← octet 2 (b.1)
  d ← octet 3 (c.1)
  some ((a.0 * 2 ^ 8 + b.0, c.0 * 2 ^ 8 + d.0), d.1)

-- `read_groups` from group `i`, with `left` groups to fill: the groups read, whether an IPv4 address
-- ended them, and what is left of the text.
unfoldable pub read_groups : ℕ → ℕ → List ℕ → List ℕ × Bool × List ℕ
unfolding read_separator read_number read_ipv4_addr
read_groups zero i text = ([], false, text)
read_groups (suc left) i text =
    elim (if ltb 0 left then read_separator b':' i read_ipv4_addr text else none) [
      | some r ↦ (r.0.0 ∷ r.0.1 ∷ [], true, r.1)
      | none ↦ elim (read_separator b':' i (read_number 16 (2 ^ 16 - 1) 4 true) text) [
        | none ↦ ([], false, text)
        | some r ↦ (let more = read_groups left (suc i) (r.1) in (r.0 ∷ more.0, more.1, more.2))
      ]
    ]

-- After `head`, the `::` and the groups at the end.
unfoldable pub read_tail : List ℕ → List ℕ → Option (List ℕ × List ℕ)
unfolding read_groups read_given_char
read_tail head text = do
  a ← read_given_char b':' text
  b ← read_given_char b':' (a.1)
  (let tail = read_groups (8 - (length head + 1)) 0 (b.1) in
      some (head ++ replicate (8 - length head - length (tail.0)) 0 ++ tail.0, tail.2))

unfoldable pub read_ipv6_addr : Reader (List ℕ)
unfolding read_groups read_tail
read_ipv6_addr text =
    let head = read_groups 8 0 text in
    if length (head.0) == 8
    then some (head.0, head.2)
    else (if head.1 then none else read_tail (head.0) (head.2))

-- The whole text is the address.
abbrev pub whole : List ℕ × List ℕ → Option (List ℕ)
whole (addr, []) = some addr
whole (addr, b ∷ bs) = none

unfoldable pub parse_ipv6 : List ℕ → Option (List ℕ)
unfolding read_ipv6_addr
parse_ipv6 text = do r ← read_ipv6_addr text; whole r
