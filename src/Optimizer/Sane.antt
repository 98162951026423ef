-- ===== src/Optimizer/Sane.antt =====
-- pktbaffle/src/optimizer.rs: the programs for which the passes are shown to keep the meaning.
use pktbaffle.Prelude.{
  ℕ, zero, suc, ◌+◌, ◌^◌, ◌<◌, ◌≡◌, Bool, true, not, ◌&&◌, ◌||◌, some, List, [], ◌∷◌, get_elem?,
  bit_and, ltb, ◌==◌, length, arith,
}
use pktbaffle.Bpf.{Insn, IsTyped, bpf_misc, bpf_txa}
use pktbaffle.Vm.Runs.{Fits}
use pktbaffle.Optimizer.{is_ja}
use pktbaffle.Optimizer.Decode.{IsCanonical}

-- The field types fit, every `ja` lands below 2 ^ 32, and every MISC opcode is TAX or TXA.
pub record IsSane (p : List Insn) : Type 0 where
  pub fits : Fits p
  pub lands : (j : ℕ) (i : Insn) → get_elem? p j ≡ some i → is_ja i ≡ true → j + 1 + i.k < 2 ^ 32
  pub canonical : (j : ℕ) (i : Insn) → get_elem? p j ≡ some i → IsCanonical i

-- A test for `IsSane`, by a walk over the program; `j` is the index of the head.
sane_from : ℕ → List Insn → Bool
sane_from j [] = true
sane_from j (x ∷ xs) =
    ltb x.code (2 ^ 16)
    && ltb x.jt (2 ^ 8)
    && ltb x.jf (2 ^ 8)
    && ltb x.k (2 ^ 32)
    && (not (is_ja x) || ltb (j + 1 + x.k) (2 ^ 32))
    && (not (bit_and x.code 0x07 == bpf_misc)
        || bit_and x.code 0x80 == 0
        || bit_and x.code 0xf8 == bpf_txa)
    && sane_from (j + 1) xs

unfoldable pub sane : List Insn → Bool
unfolding sane_from
sane p = ltb (length p) (2 ^ 32) && sane_from 0 p

-- What the test says of one instruction.
abbrev Good : ℕ → Insn → Type 0
Good j x = IsTyped x × (is_ja x ≡ true → j + 1 + x.k < 2 ^ 32) × IsCanonical x

sane_from-head : (j : ℕ) (x : Insn) (xs : List Insn) → sane_from j (x ∷ xs) ≡ true → Good j x
unfolding sane_from
sane_from-head j x xs h = (ground arith, ground arith, λ c n. ground arith)

sane_from-tail :
    (j : ℕ) (x : Insn) (xs : List Insn) → sane_from j (x ∷ xs) ≡ true → sane_from (j + 1) xs ≡ true
unfolding sane_from
sane_from-tail j x xs h = ground arith

sane_from_lem :
    (xs : List Insn) (i j : ℕ) (x : Insn)
    → sane_from i xs ≡ true
    → get_elem? xs j ≡ some x
    → Good (i + j) x
sane_from_lem [] i j x h g = absurd (ground arith)
sane_from_lem (y ∷ ys) i zero x h g =
    let q : y ≡ x = ground arith in
    let (t, l, c) = sane_from-head i y ys h in rw (← q) (t, (λ j. omega (arith, l j)), c)
sane_from_lem (y ∷ ys) i (suc j) x h g =
    let (t, l, c) = sane_from_lem ys (i + 1) j x (sane_from-tail i y ys h) g in
    (t, (λ q. omega (arith, l q)), c)

pub sane-IsSane : (p : List Insn) → sane p ≡ true → IsSane p
unfolding sane
sane-IsSane p h = record {
  fits = record { typed = λ j i e. (sane_from_lem p 0 j i good e).0; short = ground arith };
  lands = λ j i e q. omega (arith, (sane_from_lem p 0 j i good e).1 q);
  canonical = λ j i e. (sane_from_lem p 0 j i good e).2;
}
  where
    good : sane_from 0 p ≡ true
    good = ground arith
