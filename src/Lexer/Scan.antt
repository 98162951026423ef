-- ===== src/Lexer/Scan.antt =====
-- pktbaffle/src/lexer.rs: `lex`, the loop over the bytes of a filter.
-- The loop is on the rest of the text and its offset. A turn returns the token it pushed, if any, and
-- how many bytes it took. The bytes are those of a text in UTF-8.
use pktbaffle.Prelude.{
  ℕ, zero, suc, ◌+◌, ◌*◌, ◌%◌, ◌^◌, List, [], ◌∷◌, Bool, false, not, ◌||◌, ◌&&◌, Option, none, some,
  ltb, ◌==◌, if◌then◌else◌, length, take, drop,
}
use pktbaffle.Lexer.Token.{Token, Spanned}
use pktbaffle.Lexer.Bytes.{
  is_ascii_digit, is_ascii_alphabetic, is_ascii_alphanumeric, is_ascii_hexdigit,
  is_ascii_whitespace, run_length,
}
use pktbaffle.Lexer.Ip6.{parse_ipv6}
use pktbaffle.Lexer.Literal.{
  Lexed, ok, err, unexpected_character, out_of_fuel, looks_like_ipv6, parse_int, parse_mac_text,
  address_of, parse_numlike,
}
use pktbaffle.Lexer.Keyword.{two_characters, one_character, arm_for, keyword_or_ident}

abbrev pub Turn : Type 0
Turn = Option Token × ℕ

-- The bytes of an IPv6 candidate.
abbrev pub in_ipv6 : ℕ → Bool
in_ipv6 b = is_ascii_hexdigit b || b == b':' || b == b'.'

abbrev pub second_is_colon : List ℕ → Bool
second_is_colon (a ∷ b ∷ rest) = b == b':'
second_is_colon _ = false

-- At a `:`: an IPv6 address that starts with `::`, or the colon.
unfoldable pub colon_at : List ℕ → Turn
unfolding run_length parse_ipv6
colon_at text =
    let n = run_length in_ipv6 text in
    elim (if second_is_colon text then parse_ipv6 (take n text) else none) [
      | some addr ↦ (some (Token.ipv6 addr), n)
      | none ↦ (some Token.colon, 1)
    ]

abbrev pub counted : Lexed Token → ℕ → Lexed Turn
counted (ok t) n = ok (some t, n)
counted (err e) n = err e

-- A hexadecimal literal, after `0x`.
unfoldable pub hex_at : List ℕ → ℕ → Lexed Turn
unfolding run_length parse_int
hex_at text offset =
    let n = 2 + run_length is_ascii_hexdigit (drop 2 text) in
    elim (parse_int (take n text) offset) [ ok v ↦ ok (some (Token.num v), n) | err e ↦ err e ]

abbrev pub starts_with : ℕ → List ℕ → Bool
starts_with c [] = false
starts_with c (b ∷ bs) = b == c

-- `left` groups of a MAC address, each a colon and one or two hexadecimal digits: how many bytes.
unfoldable pub mac_groups : ℕ → List ℕ → Option ℕ
unfolding run_length
mac_groups zero text = some 0
mac_groups (suc left) [] = none
mac_groups (suc left) (b ∷ bs) =
    let n = run_length is_ascii_hexdigit bs in
    let rest = mac_groups left (drop n bs) in
    if not (b == b':') || n == 0 || ltb 2 n
    then none
    else elim rest [ some m ↦ some (1 + n + m) | none ↦ none ]

-- A MAC address whose first group has the first `n` bytes, with no seventh group.
unfoldable pub mac_from : List ℕ → ℕ → Option Turn
unfolding mac_groups parse_mac_text
mac_from text n = elim (mac_groups 5 (drop n text)) [
  | none ↦ none
  | some m ↦
      if starts_with b':' (drop (n + m) text)
      then none
      else elim (parse_mac_text (take (n + m) text)) [
        | some mac ↦ some (some (Token.mac mac), n + m)
        | none ↦ none
      ]
]

-- An IPv6 address whose first `n` bytes have no colon.
unfoldable pub ipv6_from : List ℕ → ℕ → Option Turn
unfolding run_length looks_like_ipv6 parse_ipv6
ipv6_from text n =
    let m = run_length in_ipv6 (drop n text) in
    if starts_with b':' (drop n text) && looks_like_ipv6 (take (n + m) text)
    then elim (parse_ipv6 (take (n + m) text)) [
      | some addr ↦ some (some (Token.ipv6 addr), n + m)
      | none ↦ none
    ]
    else none

abbrev pub in_number : ℕ → Bool
in_number b = is_ascii_alphanumeric b || b == b'.'

-- What starts with a digit.
unfoldable pub number_at : List ℕ → ℕ → Lexed Turn
unfolding run_length mac_from ipv6_from parse_numlike
number_at text offset =
    let n = run_length in_number text in
    elim (mac_from text n) [
      | some turn ↦ ok turn
      | none ↦ elim (ipv6_from text n) [
        | some turn ↦ ok turn
        | none ↦ counted (parse_numlike (take n text) offset) n
      ]
    ]

abbrev pub in_word : ℕ → Bool
in_word b = is_ascii_alphanumeric b || b == b'_' || b == b':' || b == b'.'

-- The letters that a hyphen must stand before.
abbrev pub alphabetic_next : List ℕ → Bool
alphabetic_next [] = false
alphabetic_next (b ∷ bs) = is_ascii_alphabetic b

unfoldable pub word_length : List ℕ → ℕ
word_length [] = 0
word_length (b ∷ bs) =
    let rest = word_length bs in
    if in_word b || (b == b'-' && alphabetic_next bs) then suc rest else 0

-- What starts with a letter or `_`.
unfoldable pub word_at : List ℕ → Turn
unfolding word_length address_of keyword_or_ident
word_at text =
    let word = take (word_length text) text in
    elim (address_of word) [
      | some t ↦ (some t, word_length text)
      | none ↦ (some (keyword_or_ident word), word_length text)
    ]

-- The code point that starts the text, which is not empty.
abbrev pub first_char : List ℕ → ℕ
first_char (a ∷ b ∷ c ∷ d ∷ rest) =
    if ltb a 0x80
    then a
    else (if ltb a 0xe0
        then a % 2 ^ 5 * 2 ^ 6 + b % 2 ^ 6
        else (if ltb a 0xf0
            then (a % 2 ^ 4 * 2 ^ 6 + b % 2 ^ 6) * 2 ^ 6 + c % 2 ^ 6
            else ((a % 2 ^ 3 * 2 ^ 6 + b % 2 ^ 6) * 2 ^ 6 + c % 2 ^ 6) * 2 ^ 6 + d % 2 ^ 6))
first_char (a ∷ b ∷ c ∷ []) =
    if ltb a 0x80
    then a
    else (if ltb a 0xe0
        then a % 2 ^ 5 * 2 ^ 6 + b % 2 ^ 6
        else (a % 2 ^ 4 * 2 ^ 6 + b % 2 ^ 6) * 2 ^ 6 + c % 2 ^ 6)
first_char (a ∷ b ∷ []) = if ltb a 0x80 then a else a % 2 ^ 5 * 2 ^ 6 + b % 2 ^ 6
first_char (a ∷ []) = a
first_char [] = b'?'

abbrev pub two_at : List ℕ → Option Token
two_at (b ∷ c ∷ bs) = arm_for two_characters (b ∷ c ∷ [])
two_at _ = none

abbrev pub is_hex_prefix : List ℕ → Bool
is_hex_prefix (b ∷ c ∷ bs) = b == b'0' && (c == b'x' || c == b'X')
is_hex_prefix _ = false

-- A literal, a word, or a character that is not of the grammar.
unfoldable pub literal_at : ℕ → List ℕ → ℕ → Lexed Turn
unfolding hex_at number_at word_at
literal_at b text offset =
    if is_hex_prefix text
    then hex_at text offset
    else (if is_ascii_digit b
        then number_at text offset
        else (if is_ascii_alphabetic b || b == b'_'
            then ok (word_at text)
            else err (unexpected_character offset (first_char text))))

-- One turn of the loop, at a text that is not empty.
unfoldable pub lex_turn : ℕ → List ℕ → ℕ → Lexed Turn
unfolding colon_at literal_at arm_for
lex_turn b text offset = if is_ascii_whitespace b then ok (none, 1) else elim (two_at text) [
  | some t ↦ ok (some t, 2)
  | none ↦ if b == b':' then ok (colon_at text) else elim (arm_for one_character (b ∷ [])) [
    | some t ↦ ok (some t, 1)
    | none ↦ literal_at b text offset
  ]
]

abbrev pub pushed : Option Token → ℕ → Lexed (List Spanned) → Lexed (List Spanned)
pushed none offset rest = rest
pushed (some t) offset (ok tokens) = ok (record { token = t; offset = offset } ∷ tokens)
pushed (some t) offset (err e) = err e

unfoldable pub lex_loop : ℕ → List ℕ → ℕ → Lexed (List Spanned)
unfolding lex_turn
lex_loop fuel [] offset = ok []
lex_loop zero (b ∷ bs) offset = err out_of_fuel
lex_loop (suc fuel) (b ∷ bs) offset = elim (lex_turn b (b ∷ bs) offset) [
  | ok turn ↦ pushed (turn.0) offset (lex_loop fuel (drop (turn.1) (b ∷ bs)) (offset + turn.1))
  | err e ↦ err e
]

-- Every turn takes a byte.
unfoldable pub lex : List ℕ → Lexed (List Spanned)
unfolding lex_loop
lex src = lex_loop (length src) src 0
