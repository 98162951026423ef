-- ===== src/Parser/Progress.antt =====
-- pktbaffle/src/parser.rs: what every step of the parser promises. It moves forward inside the token
-- list, restores the depth of offset recursion, and fails only with a message of the source.
pub mod Offset
pub mod Access
pub mod Address
pub mod Net
pub mod Primitive
pub mod Ether
pub mod Keyword
use pktbaffle.Prelude.{
  ℕ, zero, suc, ◌+◌, ◌^◌, ◌-◌, ◌<◌, ◌≤◌, ◌≡◌, refl, sym, ◌∙◌, Bool, true, false, ◌&&◌, List, [],
  ◌∷◌, Option, some, none, arith, length, get_elem?, ltb, if◌then◌else◌, lt_of_get_elem?,
  Option-cases, inl, inr, and-left, and-right,
}
use pktbaffle.Lexer.Token.{Token, Spanned, token_eq}
use pktbaffle.Lexer.InRange.{in_range, all_in_range}
use pktbaffle.Parser.Base.{
  ParseError, Result, ok, err, Parser, P, token_at, is_token, moved, cur_tok, cur_is, advance, eat,
  expect, parse_u32, number, or_throw, parse_u16, out_of_fuel, panicked, integer_too_large,
}

-- The errors that are messages of the source.
abbrev pub reported : ParseError → Bool
reported out_of_fuel = false
reported panicked = false
reported _ = true

-- Every token of the list is in its range.
abbrev pub AllInRange : List Spanned → Type 0
AllInRange ts = (i : ℕ) (t : Token) → token_at ts i ≡ some t → in_range t ≡ true

-- The state at depth `d`, past `p` tokens of `ts`.
pub record Inv (ts : List Spanned) (d p : ℕ) (s : Parser) : Type 0 where
  pub same_tokens : s.tokens ≡ ts
  pub same_depth : s.depth ≡ d
  pub after : p ≤ s.pos
  pub inside : s.pos ≤ length ts

-- The result of a step: a value of which `Q` holds and a state past `p`, or a reported error.
pub data Post {A : Type 0} (ts : List Spanned) (d p : ℕ) (Q : A → Type 0)
    : Result (A × Parser) → Type 0 where
  done : {a : A} {s : Parser} → Inv ts d p s → Q a → Post ts d p Q (ok (a, s))
  failed : {e : ParseError} → reported e ≡ true → Post ts d p Q (err e)

-- A step that takes a token at least.
abbrev pub Steps : {A : Type 0} → List Spanned → ℕ → (A → Type 0) → P A → Type 0
Steps ts d Q m = (s : Parser) (p : ℕ) → Inv ts d p s → Post ts d (suc p) Q (m s)

abbrev pub Anything : {A : Type 0} → A → Type 0
Anything a = Unit

pub bind-Post :
    {A B : Type 0} {ts : List Spanned} {c d p q : ℕ} {Q : A → Type 0} {R : B → Type 0}
    {r : Result (A × Parser)} {f : A → Parser → Result (B × Parser)}
    → Post ts c p Q r
    → ((a : A) (s : Parser) → Inv ts c p s → Q a → Post ts d q R (f a s))
    → Post ts d q R (elim r [ ok (a, s) ↦ f a s | err e ↦ err e ])
bind-Post (done i q) k = k _ _ i q
bind-Post (failed e) k = failed e

pub back : {ts : List Spanned} {d p q : ℕ} {s : Parser} → q ≤ p → Inv ts d p s → Inv ts d q s
back {s = s} h i =
    let a = i.after in
    record {
      same_tokens = i.same_tokens;
      same_depth = i.same_depth;
      after = omega arith;
      inside = i.inside;
    }

pub loosen :
    {A : Type 0} {ts : List Spanned} {d p q : ℕ} {Q R : A → Type 0} {r : Result (A × Parser)}
    → q ≤ p
    → ((a : A) → Q a → R a)
    → Post ts d p Q r
    → Post ts d q R r
loosen h w (done i x) = done (back h i) (w _ x)
loosen h w (failed e) = failed e

pub token-inside : (ts : List Spanned) (i : ℕ) (t : Token) → token_at ts i ≡ some t → i < length ts
token-inside ts i t h = elim (Option-cases (get_elem? ts i)) [
  | inl e ↦ absurd (ground arith)
  | inr (x, e) ↦ lt_of_get_elem? ts i e
]

pub token-here :
    {ts : List Spanned} {d p : ℕ} {s : Parser}
    → Inv ts d p s
    → token_at s.tokens s.pos ≡ token_at ts s.pos
token-here i = rw (i.same_tokens) refl

-- Past the token that stands at the position.
pub moved-Inv :
    {ts : List Spanned} {d p : ℕ} {s : Parser} {t : Token}
    → Inv ts d p s
    → token_at s.tokens s.pos ≡ some t
    → Inv ts d (suc p) (moved s)
moved-Inv {ts} {d} {p} {s} {t} i e =
    let a = i.after in
    let l = token-inside ts s.pos t (rw (← token-here i) e) in
    record {
      same_tokens = i.same_tokens;
      same_depth = i.same_depth;
      after = omega arith;
      inside = omega arith;
    }

-- A token was seen: `advance` takes it.
pub advance-Post :
    {ts : List Spanned} {d p : ℕ} {s : Parser} {t : Token}
    → Inv ts d p s
    → token_at s.tokens s.pos ≡ some t
    → Post ts d (suc p) Anything (advance s)
unfolding advance
advance-Post i e = rw (e, advance) (done (moved-Inv i e) tt)

-- What `advance` and `eat` return where any token may stand.
pub data Taken (ts : List Spanned) (d p : ℕ) : Result (Option Token × Parser) → Type 0 where
  taken :
      {t : Token} {s : Parser}
      → in_range t ≡ true
      → Inv ts d (suc p) s
      → Taken ts d p (ok (some t, s))
  ended : {s : Parser} → Taken ts d p (ok (none, s))

pub data Eaten (ts : List Spanned) (d p : ℕ) : Result (Bool × Parser) → Type 0 where
  found : {s : Parser} → Inv ts d (suc p) s → Eaten ts d p (ok (true, s))
  absent : {s : Parser} → Inv ts d p s → Eaten ts d p (ok (false, s))

pub advance-Taken :
    {ts : List Spanned} {d p : ℕ} {s : Parser}
    → AllInRange ts
    → Inv ts d p s
    → Taken ts d p (advance s)
unfolding advance
advance-Taken {s = s} fit i = elim (Option-cases (token_at s.tokens s.pos)) [
  | inl e ↦ rw (e, advance) ended
  | inr (t, e) ↦ rw (e, advance) (taken (fit s.pos t (rw (← token-here i) e)) (moved-Inv i e))
]

Eaten-if :
    {ts : List Spanned} {d p : ℕ} {s : Parser} (b : Bool)
    → (b ≡ true → Inv ts d (suc p) (moved s))
    → Inv ts d p s
    → Eaten ts d p (if b then ok (true, moved s) else ok (false, s))
Eaten-if true m i = found (m refl)
Eaten-if false m i = absent i

pub is_token-some :
    (t : Token) (o : Option Token) → is_token t o ≡ true → (x : Token) × (o ≡ some x)
is_token-some t (some x) h = (x, refl)
is_token-some t none h = absurd (ground arith)

pub eat-Eaten :
    {ts : List Spanned} {d p : ℕ} {s : Parser} (t : Token) → Inv ts d p s → Eaten ts d p (eat t s)
unfolding eat cur_is
eat-Eaten {s = s} t i =
    Eaten-if (is_token t (token_at s.tokens s.pos))
      (λ h. let (x, e) = is_token-some t (token_at s.tokens s.pos) h in moved-Inv i e) i

pub on-Taken :
    {B : Type 0} {ts : List Spanned} {c d p q : ℕ} {R : B → Type 0}
    {r : Result (Option Token × Parser)} (f : Option Token → Parser → Result (B × Parser))
    → Taken ts c p r
    → ((t : Token) (s : Parser)
        → in_range t ≡ true
        → Inv ts c (suc p) s
        → Post ts d q R (f (some t) s))
    → ((s : Parser) → Post ts d q R (f none s))
    → Post ts d q R (elim r [ ok (a, s) ↦ f a s | err e ↦ err e ])
on-Taken f (taken g i) k l = k _ _ g i
on-Taken f ended k l = l _

pub on-Eaten :
    {B : Type 0} {ts : List Spanned} {c d p q : ℕ} {R : B → Type 0} {r : Result (Bool × Parser)}
    (f : Bool → Parser → Result (B × Parser))
    → Eaten ts c p r
    → ((s : Parser) → Inv ts c (suc p) s → Post ts d q R (f true s))
    → ((s : Parser) → Inv ts c p s → Post ts d q R (f false s))
    → Post ts d q R (elim r [ ok (a, s) ↦ f a s | err e ↦ err e ])
on-Eaten f (found i) k l = k _ i
on-Eaten f (absent i) k l = l _ i

pub if-Post :
    {A : Type 0} {ts : List Spanned} {d p : ℕ} {Q : A → Type 0} {s : Parser} (b : Bool) (m n : P A)
    → (b ≡ true → Post ts d p Q (m s))
    → (b ≡ false → Post ts d p Q (n s))
    → Post ts d p Q ((if b then m else n) s)
if-Post true m n x y = x refl
if-Post false m n x y = y refl

pub bool-Post :
    {A : Type 0} {ts : List Spanned} {d p : ℕ} {Q : A → Type 0} {s : Parser} (b : Bool) (m n : P A)
    → (b ≡ true → Post ts d p Q (m s))
    → (b ≡ false → Post ts d p Q (n s))
    → Post ts d p Q (elim b as (λ _. P A) [ true ↦ m | false ↦ n ] s)
bool-Post true m n x y = x refl
bool-Post false m n x y = y refl

pub option-Post :
    {X A : Type 0} {ts : List Spanned} {d p : ℕ} {Q : A → Type 0} {s : Parser} (o : Option X)
    (f : X → P A) (n : P A)
    → ((x : X) → o ≡ some x → Post ts d p Q (f x s))
    → (o ≡ none → Post ts d p Q (n s))
    → Post ts d p Q (elim o as (λ _. P A) [ some x ↦ f x | none ↦ n ] s)
option-Post (some x) f n y z = y x refl
option-Post none f n y z = z refl

pub or_throw-Post :
    {A : Type 0} {ts : List Spanned} {d p : ℕ} {s : Parser} (e : ParseError) (o : Option A)
    → reported e ≡ true
    → Inv ts d p s
    → Post ts d p Anything (or_throw e o s)
or_throw-Post e (some a) h i = done i tt
or_throw-Post e none h i = failed h

pub expect-Post :
    {ts : List Spanned} {d p : ℕ} {s : Parser} (t : Token)
    → Inv ts d p s
    → Post ts d (suc p) Anything (expect t s)
unfolding expect cur_tok
expect-Post t i = on-Eaten _ (eat-Eaten t i) (λ s j. done j tt) (λ s j. failed refl)

number-Post :
    {ts : List Spanned} {d p : ℕ} (t : Token) (s : Parser)
    → Inv ts d p s
    → Post ts d p (λ n. n < 2 ^ 32) (number (some t) s)
number-Post (Token.num n) s j =
    if-Post {s = s} (ltb (2 ^ 32 - 1) n) _ _ (λ _. failed refl) (λ h. done j (ground arith))
number-Post Token.and s j = failed refl
number-Post _ s j = failed refl

pub parse_u32-Post :
    {ts : List Spanned} {d p : ℕ} {s : Parser}
    → AllInRange ts
    → Inv ts d p s
    → Post ts d (suc p) (λ n. n < 2 ^ 32) (parse_u32 s)
unfolding parse_u32
parse_u32-Post fit i =
    on-Taken _ (advance-Taken fit i) (λ t s g j. number-Post t s j) (λ s. failed refl)

pub parse_u16-Post :
    {ts : List Spanned} {d p : ℕ} {s : Parser}
    → AllInRange ts
    → Inv ts d p s
    → Post ts d (suc p) (λ n. n < 2 ^ 16) (parse_u16 s)
unfolding parse_u16
parse_u16-Post fit i =
    bind-Post (parse_u32-Post fit i) (λ n s j h.
      if-Post {s = s} (ltb 0xffff n) _ _ (λ _. failed refl) (λ h. done j (ground arith)))

-- A choice that says no at the end of the tokens says yes only to a token.
pub choice-some :
    {X : Type 0} (f : Option Token → Option X)
    → f none ≡ none
    → (o : Option Token) (x : X) → f o ≡ some x
    → (t : Token) × (o ≡ some t)
choice-some f h (some t) x e = (t, refl)
choice-some f h none x e = absurd (let q : none ≡ some x = sym h ∙ e in cc)

-- What a value that is returned satisfies.
pub ok-Post :
    {A : Type 0} {ts : List Spanned} {d p : ℕ} {Q : A → Type 0} {a : A} {s : Parser}
    → Post ts d p Q (ok (a, s))
    → Inv ts d p s × Q a
ok-Post (done i q) = (i, q)

pub all_in_range-AllInRange : (ts : List Spanned) → all_in_range ts ≡ true → AllInRange ts
unfolding all_in_range
all_in_range-AllInRange [] h i t e = absurd (ground arith)
all_in_range-AllInRange (x ∷ xs) h zero t e =
    let q : x.token ≡ t = ground arith in rw (← q) (and-left (in_range x.token) (all_in_range xs) h)
all_in_range-AllInRange (x ∷ xs) h (suc i) t e =
    all_in_range-AllInRange xs (and-right (in_range x.token) (all_in_range xs) h) i t e
