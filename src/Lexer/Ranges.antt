-- ===== src/Lexer/Ranges.antt =====
-- pktbaffle/src/lexer.rs: the numbers that the readers of literals return are in range.
use pktbaffle.Prelude.{
  ℕ, zero, suc, ◌+◌, ◌-◌, ◌*◌, ◌^◌, ◌≤◌, ◌<◌, ◌≡◌, refl, List, [], ◌∷◌, Bool, true, false, ◌&&◌,
  Option, none, some, ltb, leb, ◌==◌, if◌then◌else◌, length, set, arith, and-left, and-right, ◌>>=◌,
  ◌⊎◌, inl, inr,
}
use pktbaffle.Codegen.Sane.Link.{fits_mac}
use pktbaffle.Lexer.Token.{Token, bytes_eq}
use pktbaffle.Lexer.InRange.{in_range, four_octets}
use pktbaffle.Lexer.Bytes.{to_digit, digits_value, unsigned, from_str_radix, split, count}
use pktbaffle.Lexer.Literal.{mac_of, parse_mac_text, octets_loop, int_of, int_loop, NumberFault}
use pktbaffle.Lexer.Keyword.{keywords, arm_for, keyword_or_ident}

-- An option whose value, if there is one, satisfies `Q`.
pub data Holds {A : Type 0} (Q : A → Type 0) : Option A → Type 0 where
  nothing : Holds Q none
  just : {a : A} → Q a → Holds Q (some a)

pub weaken-Holds :
    {A : Type 0} {Q R : A → Type 0} {o : Option A} → Holds Q o → ((a : A) → Q a → R a) → Holds R o
weaken-Holds nothing k = nothing
weaken-Holds (just q) k = just (k _ q)

pub bind-Holds :
    {A B : Type 0} {Q : A → Type 0} {R : B → Type 0} {o : Option A} (f : A → Option B)
    → Holds Q o
    → ((a : A) → Q a → Holds R (f a))
    → Holds R (o >>= f)
bind-Holds f nothing k = nothing
bind-Holds f (just q) k = k _ q

pub if-Holds :
    {A : Type 0} {Q : A → Type 0} (b : Bool) (x y : Option A)
    → (b ≡ true → Holds Q x)
    → Holds Q y
    → Holds Q (if b then x else y)
if-Holds true x y h k = h refl
if-Holds false x y h k = k

option-Holds :
    {X A : Type 0} {Q : A → Type 0} (o : Option X) (f : X → Option A)
    → ((x : X) → Holds Q (f x))
    → Holds Q (elim o [ none ↦ none | some x ↦ f x ])
option-Holds none f k = nothing
option-Holds (some x) f k = k x

digits_value-Holds :
    (radix max : ℕ) (ds : List ℕ) (acc : ℕ)
    → acc ≤ max
    → Holds (λ v. v ≤ max) (digits_value radix max ds acc)
unfolding digits_value
digits_value-Holds radix max [] acc h = just h
digits_value-Holds radix max (b ∷ bs) acc h = option-Holds (to_digit radix b) _ (λ d.
    if-Holds (leb (acc * radix + d) max) _ _
      (λ l. digits_value-Holds radix max bs (acc * radix + d) (ground arith)) nothing)

unsigned-Holds : (radix max : ℕ) (ds : List ℕ) → Holds (λ v. v ≤ max) (unsigned radix max ds)
unsigned-Holds radix max [] = nothing
unsigned-Holds radix max (b ∷ bs) = digits_value-Holds radix max (b ∷ bs) 0 (omega arith)

from_str_radix-Holds :
    (radix max : ℕ) (ds : List ℕ) → Holds (λ v. v ≤ max) (from_str_radix radix max ds)
unfolding from_str_radix
from_str_radix-Holds radix max [] = nothing
from_str_radix-Holds radix max (b ∷ bs) =
    if-Holds (b == b'+') _ _ (λ _. unsigned-Holds radix max bs) (unsigned-Holds radix max (b ∷ bs))

mac_of-Holds : (ps : List (List ℕ)) → Holds (λ m. fits_mac m ≡ true) (mac_of ps)
mac_of-Holds (p0 ∷ p1 ∷ p2 ∷ p3 ∷ p4 ∷ p5 ∷ []) =
    bind-Holds _ (from_str_radix-Holds 16 255 p0) (λ b0 h0.
      bind-Holds _ (from_str_radix-Holds 16 255 p1) (λ b1 h1.
        bind-Holds _ (from_str_radix-Holds 16 255 p2) (λ b2 h2.
          bind-Holds _ (from_str_radix-Holds 16 255 p3) (λ b3 h3.
            bind-Holds _ (from_str_radix-Holds 16 255 p4) (λ b4 h4.
              bind-Holds _ (from_str_radix-Holds 16 255 p5) (λ b5 h5. just (ground arith)))))))
mac_of-Holds [] = nothing
mac_of-Holds (p0 ∷ []) = nothing
mac_of-Holds (p0 ∷ p1 ∷ []) = nothing
mac_of-Holds (p0 ∷ p1 ∷ p2 ∷ []) = nothing
mac_of-Holds (p0 ∷ p1 ∷ p2 ∷ p3 ∷ []) = nothing
mac_of-Holds (p0 ∷ p1 ∷ p2 ∷ p3 ∷ p4 ∷ []) = nothing
mac_of-Holds (p0 ∷ p1 ∷ p2 ∷ p3 ∷ p4 ∷ p5 ∷ p6 ∷ ps) = nothing

pub parse_mac_text-Holds : (s : List ℕ) → Holds (λ m. fits_mac m ≡ true) (parse_mac_text s)
unfolding parse_mac_text
parse_mac_text-Holds s = mac_of-Holds (split b':' s)

four_octets-set :
    (octs : List ℕ) (i n : ℕ)
    → four_octets octs ≡ true
    → n < 256
    → i < 4
    → four_octets (set octs i n) ≡ true
four_octets-set (a ∷ b ∷ c ∷ d ∷ []) zero n h k l = ground arith
four_octets-set (a ∷ b ∷ c ∷ d ∷ []) (suc zero) n h k l = ground arith
four_octets-set (a ∷ b ∷ c ∷ d ∷ []) (suc (suc zero)) n h k l = ground arith
four_octets-set (a ∷ b ∷ c ∷ d ∷ []) (suc (suc (suc zero))) n h k l = ground arith
four_octets-set (a ∷ b ∷ c ∷ d ∷ []) (suc (suc (suc (suc i)))) n h k l = absurd (omega arith)
four_octets-set [] i n h k l = absurd (ground arith)
four_octets-set (a ∷ []) i n h k l = absurd (ground arith)
four_octets-set (a ∷ b ∷ []) i n h k l = absurd (ground arith)
four_octets-set (a ∷ b ∷ c ∷ []) i n h k l = absurd (ground arith)
four_octets-set (a ∷ b ∷ c ∷ d ∷ e ∷ r) i n h k l = absurd (ground arith)

on-Holds :
    {X A : Type 0} {P : X → Type 0} {Q : A → Type 0} {o : Option X} (f : X → Option A)
    → Holds P o
    → ((x : X) → P x → Holds Q (f x))
    → Holds Q (elim o [ none ↦ none | some x ↦ f x ])
on-Holds f nothing k = nothing
on-Holds f (just p) k = k _ p

-- Four pieces at most, and every octet below 256.
pub octets_loop-Holds :
    (ps : List (List ℕ)) (i : ℕ) (octs : List ℕ)
    → four_octets octs ≡ true
    → i ≤ 4
    → Holds (λ o. (four_octets o ≡ true) × (i + length ps ≤ 4)) (octets_loop ps i octs)
unfolding octets_loop
octets_loop-Holds [] i octs h l = just (h, omega arith)
octets_loop-Holds (p ∷ ps) i octs h l = on-Holds _ (from_str_radix-Holds 10 255 p) (λ n small.
    if-Holds (ltb i 4) _ _
      (λ less.
        weaken-Holds
          (octets_loop-Holds ps (suc i) (set octs i n)
            (four_octets-set octs i n h (omega arith) (ground arith)) (ground arith))
          (λ o (f, g). (f, omega arith)))
      nothing)

-- A split has one piece more than separators.
pub length-split : (sep : ℕ) (s : List ℕ) → length (split sep s) ≡ suc (count sep s)
unfolding split count
length-split sep [] = refl
length-split sep (b ∷ bs) = let q = length-split sep bs in split_step (b == sep) (split sep bs) q
  where
    split_step :
        (c : Bool) (pieces : List (List ℕ))
        → length pieces ≡ suc (count sep bs)
        → length
            (if c then [] ∷ pieces else elim pieces [ [] ↦ (b ∷ []) ∷ [] | p ∷ ps ↦ (b ∷ p) ∷ ps ])
          ≡ suc (if c then suc (count sep bs) else count sep bs)
    split_step true pieces q = omega arith
    split_step false [] q = absurd (omega arith)
    split_step false (p ∷ ps) q = q

-- A number that was read has 32 bits.
pub data IntOk : ℕ ⊎ NumberFault → Type 0 where
  value : {v : ℕ} → v < 2 ^ 32 → IntOk (inl v)
  fault : {w : NumberFault} → IntOk (inr w)

digit-IntOk :
    (o : Option ℕ) (w : NumberFault) (f : ℕ → ℕ ⊎ NumberFault)
    → ((d : ℕ) → IntOk (f d))
    → IntOk (elim o [ none ↦ inr w | some d ↦ f d ])
digit-IntOk none w f k = fault
digit-IntOk (some d) w f k = k d

overflow-IntOk :
    (b : Bool) (w : NumberFault) (r : ℕ ⊎ NumberFault)
    → (b ≡ false → IntOk r)
    → IntOk (if b then inr w else r)
overflow-IntOk true w r k = fault
overflow-IntOk false w r k = k refl

int_loop-IntOk : (radix : ℕ) (ds : List ℕ) (n : ℕ) → n < 2 ^ 32 → IntOk (int_loop radix ds n)
unfolding int_loop
int_loop-IntOk radix [] n h = value h
int_loop-IntOk radix (c ∷ cs) n h = digit-IntOk (to_digit radix c) _ _ (λ d.
    overflow-IntOk (ltb (2 ^ 32 - 1) (n * radix + d)) _ _
      (λ l. int_loop-IntOk radix cs (n * radix + d) (ground arith)))

pub int_of-IntOk : (ds : List ℕ) (radix : ℕ) → IntOk (int_of ds radix)
int_of-IntOk [] radix = fault
int_of-IntOk (c ∷ cs) radix = int_loop-IntOk radix (c ∷ cs) 0 (omega arith)

unfoldable pub all_arms : List (List ℕ × Token) → Bool
all_arms [] = true
all_arms ((word, t) ∷ arms) = in_range t && all_arms arms

pub arm_for-Holds :
    (arms : List (List ℕ × Token)) (s : List ℕ)
    → all_arms arms ≡ true
    → Holds (λ t. in_range t ≡ true) (arm_for arms s)
unfolding all_arms arm_for
arm_for-Holds [] s h = nothing
arm_for-Holds ((word, t) ∷ arms) s h =
    if-Holds (bytes_eq word s) _ _ (λ _. just (and-left (in_range t) (all_arms arms) h))
      (arm_for-Holds arms s (and-right (in_range t) (all_arms arms) h))

keyword_or-in_range :
    (s : List ℕ) (o : Option Token)
    → Holds (λ t. in_range t ≡ true) o
    → in_range (elim o [ some t ↦ t | none ↦ Token.ident s ]) ≡ true
unfolding in_range
keyword_or-in_range s none h = refl
keyword_or-in_range s (some t) (just h) = h

pub keyword_or_ident-in_range : (s : List ℕ) → in_range (keyword_or_ident s) ≡ true
unfolding keyword_or_ident all_arms in_range
keyword_or_ident-in_range s =
    keyword_or-in_range s (arm_for keywords s) (arm_for-Holds keywords s refl)
