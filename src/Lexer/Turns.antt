-- ===== src/Lexer/Turns.antt =====
-- pktbaffle/src/lexer.rs: what a turn of `lex` does. It takes a byte at least, none past the end, and its
-- token is in range, or it fails at the offset where it stands.
use pktbaffle.Prelude.{
  ℕ, zero, suc, ◌+◌, ◌-◌, ◌^◌, ◌≤◌, ◌<◌, ◌≡◌, refl, List, [], ◌∷◌, Bool, true, false, not, ◌||◌,
  ◌&&◌, Option, none, some, ltb, leb, ◌==◌, if◌then◌else◌, length, take, drop, arith, and-both, inl,
  inr, ◌⊎◌,
}
use pktbaffle.Ast.{MacAddr}
use pktbaffle.Codegen.Sane.Addr.{fits_ip6}
use pktbaffle.Codegen.Sane.Link.{fits_mac}
use pktbaffle.Lexer.Token.{Token}
use pktbaffle.Lexer.InRange.{in_range, four_octets}
use pktbaffle.Lexer.Bytes.{run_length, split, count, is_ascii_hexdigit}
use pktbaffle.Lexer.Ip6.{parse_ipv6}
use pktbaffle.Lexer.Literal.{
  LexFault, NumberFault, unexpected_character, invalid_ipv4, invalid_number, out_of_fuel, Lexed, ok,
  err, radix_of, parse_int, numbered, parse_mac_text, dotted, looks_like_ipv6, looks_like_mac,
  address_of, parse_numlike,
}
use pktbaffle.Lexer.Ranges.{
  Holds, nothing, just, if-Holds, IntOk, value, int_of-IntOk, parse_mac_text-Holds,
  octets_loop-Holds, length-split,
}
use pktbaffle.Lexer.Ip6Range.{parse_ipv6-Holds}
use pktbaffle.Lexer.Scan.{
  Turn, in_ipv6, counted, starts_with, mac_groups, mac_from, ipv6_from, in_number, number_at,
  in_word, alphabetic_next, word_length,
}

-- Where a fault of the source stands.
abbrev pub fault_offset : LexFault → Option ℕ
fault_offset (unexpected_character offset ch) = some offset
fault_offset (invalid_ipv4 raw offset) = some offset
fault_offset (invalid_number raw offset why) = some offset
fault_offset out_of_fuel = none

-- A result: a value with `Q`, or a fault at the offset.
pub data LexedOk {A : Type 0} (Q : A → Type 0) (offset : ℕ) : Lexed A → Type 0 where
  good : {a : A} → Q a → LexedOk Q offset (ok a)
  faulty : {e : LexFault} → fault_offset e ≡ some offset → LexedOk Q offset (err e)

unfoldable pub InRange : Token → Type 0
InRange t = in_range t ≡ true

abbrev pub token_ok : Option Token → Bool
token_ok none = true
token_ok (some t) = in_range t

-- A turn that may be taken on a text.
pub record TurnOn (text : List ℕ) (turn : Turn) : Type 0 where
  pub fits : token_ok (turn.0) ≡ true
  pub some_byte : 1 ≤ turn.1
  pub inside : turn.1 ≤ length text

pub length-drop : (n : ℕ) (xs : List ℕ) → length (drop n xs) ≡ length xs - n
length-drop zero xs = omega arith
length-drop (suc n) [] = omega arith
length-drop (suc n) (x ∷ xs) = omega (arith, length-drop n xs)

pub run_length-le : (p : ℕ → Bool) (xs : List ℕ) → run_length p xs ≤ length xs
unfolding run_length
run_length-le p [] = omega arith
run_length-le p (b ∷ bs) = let q = run_length-le p bs in ground arith

pub word_length-le : (xs : List ℕ) → word_length xs ≤ length xs
unfolding word_length
word_length-le [] = omega arith
word_length-le (b ∷ bs) = if_le (in_word b || (b == b'-' && alphabetic_next bs)) (word_length-le bs)
  where
    if_le :
        (c : Bool)
        → word_length bs ≤ length bs
        → (if c then suc (word_length bs) else 0) ≤ suc (length bs)
    if_le true q = omega arith
    if_le false q = omega arith

-- The front of a text that passes the test has a byte.
pub run_length-pos : (p : ℕ → Bool) (b : ℕ) (bs : List ℕ) → p b ≡ true → 1 ≤ run_length p (b ∷ bs)
unfolding run_length
run_length-pos p b bs h = rw h (omega arith)

mac_groups-Holds : (left : ℕ) (text : List ℕ) → Holds (λ m. m ≤ length text) (mac_groups left text)
unfolding mac_groups
mac_groups-Holds zero text = just (omega arith)
mac_groups-Holds (suc left) [] = nothing
mac_groups-Holds (suc left) (b ∷ bs) =
    let n = run_length is_ascii_hexdigit bs in
    refuse (not (b == b':') || n == 0 || ltb 2 n) (mac_groups left (drop n bs))
      (mac_groups-Holds left (drop n bs)) (run_length-le is_ascii_hexdigit bs) (length-drop n bs)
  where
    refuse :
        {n : ℕ} (c : Bool) (o : Option ℕ)
        → Holds (λ m. m ≤ length (drop n bs)) o
        → n ≤ length bs
        → length (drop n bs) ≡ length bs - n
        → Holds
            (λ m. m ≤ suc (length bs))
            (if c then none else elim o [ some m ↦ some (1 + n + m) | none ↦ none ])
    refuse true o h l e = nothing
    refuse false none h l e = nothing
    refuse false (some m) (just h) l e = just (omega arith)

pub parse_int-LexedOk :
    (raw : List ℕ) (offset : ℕ) → LexedOk (λ v. v < 2 ^ 32) offset (parse_int raw offset)
unfolding parse_int
parse_int-LexedOk raw offset = of_int _ (int_of-IntOk ((radix_of raw).0) ((radix_of raw).1))
  where
    of_int :
        (r : ℕ ⊎ NumberFault)
        → IntOk r
        → LexedOk
            (λ v. v < 2 ^ 32)
            offset
            (elim r [ inl n ↦ ok n | inr why ↦ err (invalid_number raw offset why) ])
    of_int (inl v) (value h) = good h
    of_int (inr w) h = faulty refl

-- A dotted address has two pieces at least.
dotted-LexedOk :
    (raw : List ℕ) (offset : ℕ) → 0 < count b'.' raw → LexedOk InRange offset (dotted raw offset)
unfolding dotted InRange in_range
dotted-LexedOk raw offset h =
    of_octets _ (octets_loop-Holds (split b'.' raw) 0 (0 ∷ 0 ∷ 0 ∷ 0 ∷ []) refl (omega arith))
  where
    of_octets :
        (o : Option (List ℕ))
        → Holds (λ o. (four_octets o ≡ true) × (0 + length (split b'.' raw) ≤ 4)) o
        → LexedOk
            (λ t. in_range t ≡ true)
            offset
            (elim o [
              | some octets ↦ ok (Token.ipv4 octets (length (split b'.' raw)))
              | none ↦ err (invalid_ipv4 raw offset)
            ])
    of_octets none g = faulty refl
    of_octets (some octets) (just (f, l)) =
        let n = length-split b'.' raw in
        good (
          and-both (four_octets octets && leb 2 (length (split b'.' raw))) _
            (and-both (four_octets octets) _ f (ground arith)) (ground arith))

-- The first that answers, of an IPv6 address and a MAC address.
pub address_of-Holds : (raw : List ℕ) → Holds InRange (address_of raw)
unfolding address_of InRange in_range
address_of-Holds raw =
    ip6_or (if looks_like_ipv6 raw then parse_ipv6 raw else none)
      (if-Holds (looks_like_ipv6 raw) _ _ (λ _. parse_ipv6-Holds raw) nothing)
      (mac_or (if looks_like_mac raw then parse_mac_text raw else none)
        (if-Holds (looks_like_mac raw) _ _ (λ _. parse_mac_text-Holds raw) nothing))
  where
    mac_or :
        (o : Option MacAddr)
        → Holds (λ m. fits_mac m ≡ true) o
        → Holds (λ t. in_range t ≡ true) (elim o [ some mac ↦ some (Token.mac mac) | none ↦ none ])
    mac_or none h = nothing
    mac_or (some m) (just h) = just h

    ip6_or :
        {other : Option Token} (o : Option (List ℕ))
        → Holds (λ a. fits_ip6 a ≡ true) o
        → Holds (λ t. in_range t ≡ true) other
        → Holds
            (λ t. in_range t ≡ true)
            (elim o [ some addr ↦ some (Token.ipv6 addr) | none ↦ other ])
    ip6_or none h g = g
    ip6_or (some a) (just h) g = just h

numbered-LexedOk :
    {offset : ℕ} (r : Lexed ℕ)
    → LexedOk (λ v. v < 2 ^ 32) offset r
    → LexedOk InRange offset (numbered r)
unfolding InRange in_range
numbered-LexedOk (ok v) (good h) = good (ground arith)
numbered-LexedOk (err e) (faulty h) = faulty h

parse_numlike-LexedOk :
    (raw : List ℕ) (offset : ℕ) → LexedOk InRange offset (parse_numlike raw offset)
unfolding parse_numlike
parse_numlike-LexedOk raw offset =
    by_dot (ltb 0 (count b'.' raw)) refl (address_of raw) (address_of-Holds raw)
      (numbered-LexedOk (parse_int raw offset) (parse_int-LexedOk raw offset))
  where
    by_dot :
        (c : Bool)
        → ltb 0 (count b'.' raw) ≡ c
        → (o : Option Token) → Holds InRange o
        → LexedOk InRange offset (numbered (parse_int raw offset))
        → LexedOk InRange offset (
            if c
            then dotted raw offset
            else elim o [ some t ↦ ok t | none ↦ numbered (parse_int raw offset) ])
    by_dot true h o g k = dotted-LexedOk raw offset (ground arith)
    by_dot false h none g k = k
    by_dot false h (some t) (just g) k = good g

-- The turns that are options.
abbrev pub MayTurn : List ℕ → Option Turn → Type 0
MayTurn text o = Holds (TurnOn text) o

mac_from-MayTurn :
    (text : List ℕ) (n : ℕ) → 1 ≤ n → n ≤ length text → MayTurn text (mac_from text n)
unfolding mac_from in_range
mac_from-MayTurn text n p l =
    grouped (mac_groups 5 (drop n text)) (mac_groups-Holds 5 (drop n text)) (length-drop n text)
  where
    read_as :
        (m : ℕ)
        → n + m ≤ length text
        → (o : Option MacAddr) → Holds (λ a. fits_mac a ≡ true) o
        → MayTurn text (elim o [ some mac ↦ some (some (Token.mac mac), n + m) | none ↦ none ])
    read_as m h none g = nothing
    read_as m h (some a) (just g) = just (record { fits = g; some_byte = omega arith; inside = h })

    no_more : {o : Option Turn} (c : Bool) → MayTurn text o → MayTurn text (if c then none else o)
    no_more true h = nothing
    no_more false h = h

    grouped :
        (o : Option ℕ)
        → Holds (λ m. m ≤ length (drop n text)) o
        → length (drop n text) ≡ length text - n
        → MayTurn text (elim o [
          | none ↦ none
          | some m ↦
              if starts_with b':' (drop (n + m) text)
              then none
              else elim (parse_mac_text (take (n + m) text)) [
                | some mac ↦ some (some (Token.mac mac), n + m)
                | none ↦ none
              ]
        ])
    grouped none h e = nothing
    grouped (some m) (just h) e = no_more (starts_with b':' (drop (n + m) text)) (
        read_as m (omega arith) (parse_mac_text (take (n + m) text))
          (parse_mac_text-Holds (take (n + m) text)))

-- A candidate of `n` bytes that is an address.
pub read_ip6-MayTurn :
    (text : List ℕ) (n : ℕ) (o : Option (List ℕ))
    → 1 ≤ n
    → n ≤ length text
    → Holds (λ a. fits_ip6 a ≡ true) o
    → MayTurn text (elim o [ some addr ↦ some (some (Token.ipv6 addr), n) | none ↦ none ])
unfolding in_range
read_ip6-MayTurn text n none p l h = nothing
read_ip6-MayTurn text n (some a) p l (just h) =
    just (record { fits = h; some_byte = p; inside = l })

ipv6_from-MayTurn :
    (text : List ℕ) (n : ℕ) → 1 ≤ n → n ≤ length text → MayTurn text (ipv6_from text n)
unfolding ipv6_from
ipv6_from-MayTurn text n p l =
    let m = run_length in_ipv6 (drop n text) in
    let q = run_length-le in_ipv6 (drop n text) in
    let e = length-drop n text in
    if-Holds (starts_with b':' (drop n text) && looks_like_ipv6 (take (n + m) text)) _ _
      (λ _.
        read_ip6-MayTurn text (n + m) (parse_ipv6 (take (n + m) text)) (omega arith) (omega arith)
          (parse_ipv6-Holds (take (n + m) text)))
      nothing

-- The results that are turns.
abbrev pub Turns : List ℕ → ℕ → Lexed Turn → Type 0
Turns text offset r = LexedOk (TurnOn text) offset r

pub number_at-Turns :
    (b : ℕ) (bs : List ℕ) (offset : ℕ)
    → in_number b ≡ true
    → Turns (b ∷ bs) offset (number_at (b ∷ bs) offset)
unfolding number_at InRange
number_at-Turns b bs offset h =
    let text = b ∷ bs in
    let n = run_length in_number text in
    let p = run_length-pos in_number b bs h in
    let l = run_length-le in_number text in
    first_of (mac_from text n) (ipv6_from text n) (mac_from-MayTurn text n p l)
      (ipv6_from-MayTurn text n p l)
      (counted_turn (parse_numlike (take n text) offset) p l
        (parse_numlike-LexedOk (take n text) offset))
  where
    counted_turn :
        {n : ℕ} (r : Lexed Token)
        → 1 ≤ n
        → n ≤ length (b ∷ bs)
        → LexedOk InRange offset r
        → Turns (b ∷ bs) offset (counted r n)
    counted_turn (ok t) p l (good g) = good (record { fits = g; some_byte = p; inside = l })
    counted_turn (err e) p l (faulty g) = faulty g

    first_of :
        {r : Lexed Turn} (x y : Option Turn)
        → MayTurn (b ∷ bs) x
        → MayTurn (b ∷ bs) y
        → Turns (b ∷ bs) offset r
        → Turns
            (b ∷ bs)
            offset
            (elim x [ some turn ↦ ok turn | none ↦ elim y [ some turn ↦ ok turn | none ↦ r ] ])
    first_of (some t) y (just h) k m = good h
    first_of none (some t) h (just k) m = good k
    first_of none none h k m = m
