-- ===== src/Lexer/Scanned.antt =====
-- pktbaffle/src/lexer.rs: every token of a filter is in range, and the offsets increase inside it.
use pktbaffle.Prelude.{
  ℕ, zero, suc, ◌+◌, ◌^◌, ◌≤◌, ◌<◌, ◌≡◌, refl, subst, List, [], ◌∷◌, Bool, true, false, ◌||◌,
  Option, none, some, ◌==◌, if◌then◌else◌, length, take, drop, arith, and-both,
}
use pktbaffle.Codegen.Sane.Addr.{fits_ip6}
use pktbaffle.Lexer.Token.{Token, Spanned}
use pktbaffle.Lexer.InRange.{in_range, all_in_range}
use pktbaffle.Lexer.Bytes.{
  run_length, is_ascii_hexdigit, is_ascii_digit, is_ascii_alphabetic, is_ascii_whitespace,
}
use pktbaffle.Lexer.Literal.{LexFault, Lexed, ok, err, parse_int, address_of}
use pktbaffle.Lexer.Keyword.{two_characters, one_character, arm_for, keyword_or_ident}
use pktbaffle.Lexer.Ranges.{
  Holds, nothing, just, if-Holds, keyword_or_ident-in_range, all_arms, arm_for-Holds,
}
use pktbaffle.Lexer.Ip6Range.{parse_ipv6-Holds}
use pktbaffle.Lexer.Scan.{
  Turn, second_is_colon, in_ipv6, colon_at, hex_at, in_number, in_word, word_length, word_at,
  two_at, is_hex_prefix, literal_at, lex_turn, pushed, lex_loop, lex,
}
use pktbaffle.Lexer.Turns.{
  fault_offset, LexedOk, good, faulty, InRange, token_ok, TurnOn, length-drop, run_length-le,
  word_length-le, run_length-pos, parse_int-LexedOk, address_of-Holds, number_at-Turns, Turns,
}

-- A token of one byte or two.
fixed-Turns :
    {text : List ℕ} {offset : ℕ} {r : Lexed Turn} (n : ℕ) (o : Option Token)
    → 1 ≤ n
    → ((t : Token) → o ≡ some t → n ≤ length text)
    → Holds InRange o
    → Turns text offset r
    → Turns text offset (elim o [ some t ↦ ok (some t, n) | none ↦ r ])
unfolding InRange
fixed-Turns n none p l h k = k
fixed-Turns n (some t) p l (just g) k = good (record { fits = g; some_byte = p; inside = l t refl })

two_at-Holds : (text : List ℕ) → Holds InRange (two_at text)
unfolding all_arms in_range InRange
two_at-Holds [] = nothing
two_at-Holds (b ∷ []) = nothing
two_at-Holds (b ∷ c ∷ bs) = arm_for-Holds two_characters (b ∷ c ∷ []) refl

two_at-long : (text : List ℕ) (t : Token) → two_at text ≡ some t → 2 ≤ length text
two_at-long [] t e = absurd (ground arith)
two_at-long (b ∷ []) t e = absurd (ground arith)
two_at-long (b ∷ c ∷ bs) t e = omega arith

hex_at-Turns :
    (text : List ℕ) (offset : ℕ)
    → is_hex_prefix text ≡ true
    → Turns text offset (hex_at text offset)
unfolding hex_at in_range
hex_at-Turns [] offset h = absurd (ground arith)
hex_at-Turns (b ∷ []) offset h = absurd (ground arith)
hex_at-Turns (b ∷ c ∷ bs) offset h =
    let n = 2 + run_length is_ascii_hexdigit bs in
    let l = run_length-le is_ascii_hexdigit bs in
    read_as (parse_int (take n (b ∷ c ∷ bs)) offset) (omega arith)
      (parse_int-LexedOk (take n (b ∷ c ∷ bs)) offset)
  where
    read_as :
        {n : ℕ} (r : Lexed ℕ)
        → (1 ≤ n) × (n ≤ length (b ∷ c ∷ bs))
        → LexedOk (λ v. v < 2 ^ 32) offset r
        → Turns (b ∷ c ∷ bs) offset (elim r [ ok v ↦ ok (some (Token.num v), n) | err e ↦ err e ])
    read_as (ok v) (p, l) (good g) =
        good (record { fits = ground arith; some_byte = p; inside = l })
    read_as (err e) pl (faulty g) = faulty g

-- An IPv6 address that starts here, or one token of one byte.
ip6_or-TurnOn :
    (b : ℕ) (bs : List ℕ) (n : ℕ) (o : Option (List ℕ))
    → 1 ≤ n
    → n ≤ length (b ∷ bs)
    → Holds (λ a. fits_ip6 a ≡ true) o
    → TurnOn
        (b ∷ bs)
        (elim o [ some addr ↦ (some (Token.ipv6 addr), n) | none ↦ (some Token.colon, 1) ])
unfolding in_range
ip6_or-TurnOn b bs n none p l h = record {
  fits = refl;
  some_byte = omega arith;
  inside = omega arith;
}
ip6_or-TurnOn b bs n (some a) p l (just h) = record { fits = h; some_byte = p; inside = l }

colon_at-TurnOn : (b : ℕ) (bs : List ℕ) → in_ipv6 b ≡ true → TurnOn (b ∷ bs) (colon_at (b ∷ bs))
unfolding colon_at
colon_at-TurnOn b bs h =
    let n = run_length in_ipv6 (b ∷ bs) in
    ip6_or-TurnOn b bs n _ (run_length-pos in_ipv6 b bs h) (run_length-le in_ipv6 (b ∷ bs))
      (if-Holds (second_is_colon (b ∷ bs)) _ _ (λ _. parse_ipv6-Holds (take n (b ∷ bs))) nothing)

address_or-TurnOn :
    {text : List ℕ} {n : ℕ} (t : Token) (o : Option Token)
    → 1 ≤ n
    → n ≤ length text
    → Holds InRange o
    → in_range t ≡ true
    → TurnOn text (elim o [ some a ↦ (some a, n) | none ↦ (some t, n) ])
unfolding InRange
address_or-TurnOn t none p l h g = record { fits = g; some_byte = p; inside = l }
address_or-TurnOn t (some a) p l (just h) g = record { fits = h; some_byte = p; inside = l }

word_length-pos : (b : ℕ) (bs : List ℕ) → in_word b ≡ true → 1 ≤ word_length (b ∷ bs)
unfolding word_length
word_length-pos b bs h = rw h (omega arith)

word_at-TurnOn : (b : ℕ) (bs : List ℕ) → in_word b ≡ true → TurnOn (b ∷ bs) (word_at (b ∷ bs))
unfolding word_at
word_at-TurnOn b bs h =
    let word = take (word_length (b ∷ bs)) (b ∷ bs) in
    address_or-TurnOn (keyword_or_ident word) (address_of word) (word_length-pos b bs h)
      (word_length-le (b ∷ bs)) (address_of-Holds word) (keyword_or_ident-in_range word)

if-Turns :
    {text : List ℕ} {offset : ℕ} (c : Bool) (x y : Lexed Turn)
    → (c ≡ true → Turns text offset x)
    → (c ≡ false → Turns text offset y)
    → Turns text offset (if c then x else y)
if-Turns true x y h k = h refl
if-Turns false x y h k = k refl

digit-in_number : (b : ℕ) → is_ascii_digit b ≡ true → in_number b ≡ true
digit-in_number b h = ground arith

letter-in_word : (b : ℕ) → (is_ascii_alphabetic b || b == b'_') ≡ true → in_word b ≡ true
letter-in_word b h = ground arith

literal_at-Turns :
    (b : ℕ) (bs : List ℕ) (offset : ℕ) → Turns (b ∷ bs) offset (literal_at b (b ∷ bs) offset)
unfolding literal_at
literal_at-Turns b bs offset =
    if-Turns (is_hex_prefix (b ∷ bs)) _ _ (λ h. hex_at-Turns (b ∷ bs) offset h)
      (λ _.
        if-Turns (is_ascii_digit b) _ _ (λ h. number_at-Turns b bs offset (digit-in_number b h))
          (λ _.
            if-Turns (is_ascii_alphabetic b || b == b'_') _ _
              (λ h. good (word_at-TurnOn b bs (letter-in_word b h))) (λ _. faulty refl)))

-- A turn takes a byte at least and none past the end, and its token is in range.
lex_turn-Turns :
    (b : ℕ) (bs : List ℕ) (offset : ℕ) → Turns (b ∷ bs) offset (lex_turn b (b ∷ bs) offset)
unfolding lex_turn InRange in_range all_arms
lex_turn-Turns b bs offset =
    if-Turns (is_ascii_whitespace b) _ _
      (λ _. good (record { fits = refl; some_byte = omega arith; inside = omega arith }))
      (λ _.
        fixed-Turns 2 (two_at (b ∷ bs)) (omega arith) (two_at-long (b ∷ bs)) (two_at-Holds (b ∷ bs))
          (if-Turns (b == b':') _ _ (λ h. good (colon_at-TurnOn b bs (ground arith)))
            (λ _.
              fixed-Turns 1 (arm_for one_character (b ∷ [])) (omega arith) (λ t e. omega arith)
                (arm_for-Holds one_character (b ∷ []) refl) (literal_at-Turns b bs offset))))

-- Offsets increase from `lo` and stay below `hi`.
pub data Ordered : ℕ → ℕ → List Spanned → Type 0 where
  no_tokens : {lo hi : ℕ} → Ordered lo hi []
  token_next :
      {lo hi : ℕ} {x : Spanned} {xs : List Spanned}
      → lo ≤ x.offset
      → x.offset < hi
      → Ordered (x.offset + 1) hi xs
      → Ordered lo hi (x ∷ xs)

-- What `lex` may return for the bytes from `lo` up to `hi`.
pub data Scanned (lo hi : ℕ) : Lexed (List Spanned) → Type 0 where
  scanned : {ts : List Spanned} → Ordered lo hi ts → all_in_range ts ≡ true → Scanned lo hi (ok ts)
  stopped :
      {e : LexFault} {at : ℕ} → fault_offset e ≡ some at → lo ≤ at → at < hi → Scanned lo hi (err e)

Ordered-le : {lo lo' hi : ℕ} {ts : List Spanned} → lo ≤ lo' → Ordered lo' hi ts → Ordered lo hi ts
Ordered-le h no_tokens = no_tokens
Ordered-le h (token_next a b o) = token_next (omega arith) b o

pushed-Scanned :
    {lo lo' hi : ℕ} (t : Option Token) (r : Lexed (List Spanned))
    → token_ok t ≡ true
    → lo + 1 ≤ lo'
    → lo < hi
    → Scanned lo' hi r
    → Scanned lo hi (pushed t lo r)
unfolding all_in_range
pushed-Scanned none r f h l (scanned o g) = scanned (Ordered-le (omega arith) o) g
pushed-Scanned none r f h l (stopped e a b) = stopped e (omega arith) b
pushed-Scanned (some t) r f h l (scanned {ts} o g) =
    scanned (token_next (omega arith) l (Ordered-le h o))
      (and-both (in_range t) (all_in_range ts) f g)
pushed-Scanned (some t) r f h l (stopped e a b) = stopped e (omega arith) b

-- With fuel for every byte, the loop never runs out of it.
lex_loop-Scanned :
    (fuel : ℕ) (text : List ℕ) (offset : ℕ)
    → length text ≤ fuel
    → Scanned offset (offset + length text) (lex_loop fuel text offset)
unfolding lex_loop all_in_range
lex_loop-Scanned fuel [] offset h = scanned no_tokens refl
lex_loop-Scanned zero (b ∷ bs) offset h = absurd (omega arith)
lex_loop-Scanned (suc fuel) (b ∷ bs) offset h =
    turned (lex_turn b (b ∷ bs) offset) (lex_turn-Turns b bs offset)
      (λ n. lex_loop-Scanned fuel (drop n (b ∷ bs)) (offset + n))
  where
    turned :
        (r : Lexed Turn)
        → Turns (b ∷ bs) offset r
        → ((n : ℕ)
            → length (drop n (b ∷ bs)) ≤ fuel
            → Scanned
                (offset + n)
                (offset + n + length (drop n (b ∷ bs)))
                (lex_loop fuel (drop n (b ∷ bs)) (offset + n)))
        → Scanned offset (offset + length (b ∷ bs)) (elim r [
          | ok turn ↦
              pushed (turn.0) offset (lex_loop fuel (drop (turn.1) (b ∷ bs)) (offset + turn.1))
          | err e ↦ err e
        ])
    turned (err e) (faulty f) k = stopped f (omega arith) (omega arith)
    turned (ok turn) (good g) k =
        let p = g.some_byte in
        let i = g.inside in
        let d = length-drop (turn.1) (b ∷ bs) in
        let same : offset + turn.1 + length (drop (turn.1) (b ∷ bs)) ≡ offset + length (b ∷ bs) =
          omega arith in
        pushed-Scanned (turn.0) (lex_loop fuel (drop (turn.1) (b ∷ bs)) (offset + turn.1)) (g.fits)
          (omega arith) (omega arith)
          (subst
            (λ hi.
              Scanned (offset + turn.1) hi
                (lex_loop fuel (drop (turn.1) (b ∷ bs)) (offset + turn.1)))
            same (k (turn.1) (omega arith)))

-- `lex` returns for every filter: tokens whose numbers are in range and whose offsets increase inside the
-- filter, or a fault of the source at an offset inside it.
pub lex-Scanned : (src : List ℕ) → Scanned 0 (length src) (lex src)
unfolding lex
lex-Scanned src =
    let same : 0 + length src ≡ length src = omega arith in
    subst (λ hi. Scanned 0 hi (lex_loop (length src) src 0)) same
      (lex_loop-Scanned (length src) src 0 (omega arith))

-- There is a byte for every token.
pub Ordered-length :
    {lo hi : ℕ} {ts : List Spanned} → lo ≤ hi → Ordered lo hi ts → length ts + lo ≤ hi
Ordered-length h no_tokens = omega arith
Ordered-length h (token_next a b o) = omega (arith, Ordered-length (omega arith) o)
