-- ===== src/Optimizer/Chains.antt =====
-- pktbaffle/src/optimizer.rs: `thread_jumps` against the chains of unconditional jumps of the program.
use pktbaffle.Prelude.{
  ℕ, zero, suc, ◌+◌, ◌-◌, ◌≤◌, ◌<◌, ◌≡◌, ◌≢◌, refl, sym, ap, ◌∙◌, subst, inl, inr, true, false,
  List, [], ◌∷◌, some, none, ltb, bit_and, length, get_elem?, get_or, Bool-cases, arith,
}
use pktbaffle.Bpf.{Insn}
use pktbaffle.Optimizer.{
  is_ja, is_cond_jump, final_targets, final_target, narrow_u8, thread_insn, thread_jumps,
}
use pktbaffle.Optimizer.Sane.{IsSane}
use pktbaffle.Optimizer.Thread.{thread_insn_ja}
use pktbaffle.Optimizer.ThreadRuns.{
  fin, fin_ge, get_thread, threaded_ja_target, length-thread_jumps,
}

-- An unconditional and a conditional jump, by the class and the operation of the opcode.
abbrev pub IsGoto : Insn → Type 0
IsGoto x = (bit_and x.code 0x07 ≡ 5) × (bit_and x.code 0xf0 ≡ 0)

abbrev pub IsBranch : Insn → Type 0
IsBranch x = (bit_and x.code 0x07 ≡ 5) × (bit_and x.code 0xf0 ≢ 0)

-- Where a chain of unconditional jumps that starts at an index ends.
pub data LeadsTo (p : List Insn) : ℕ → ℕ → Type 0 where
  past_end : {t : ℕ} → get_elem? p t ≡ none → LeadsTo p t t
  at_insn : {t : ℕ} {x : Insn} → get_elem? p t ≡ some x → ¬ (IsGoto x) → LeadsTo p t t
  by_goto :
      {t u : ℕ} {x : Insn}
      → get_elem? p t ≡ some x
      → IsGoto x
      → LeadsTo p (t + 1 + x.k) u
      → LeadsTo p t u

-- A field of a conditional jump at `j`, whose chain ends at `u`: it goes there if eight bits hold the
-- offset, and stays otherwise.
pub data Field (j old u : ℕ) : ℕ → Type 0 where
  reaches : {new : ℕ} → j + 1 + new ≡ u → new < 256 → Field j old u new
  too_far : j + 1 + 256 ≤ u → Field j old u old

-- The instruction that stands for `x` at `j`.
pub data Threaded (p : List Insn) (j : ℕ) (x : Insn) : Insn → Type 0 where
  goto :
      {k : ℕ} → IsGoto x → LeadsTo p (j + 1 + x.k) (j + 1 + k) → Threaded p j x (record x { k = k })
  branch :
      {t u a b : ℕ}
      → IsBranch x
      → LeadsTo p (j + 1 + x.jt) t
      → LeadsTo p (j + 1 + x.jf) u
      → Field j x.jt t a
      → Field j x.jf u b
      → Threaded p j x (record x { jt = a; jf = b })
  other : bit_and x.code 0x07 ≢ 5 → Threaded p j x x

is_ja-IsGoto : (x : Insn) → is_ja x ≡ true → IsGoto x
unfolding is_ja
is_ja-IsGoto x h = (ground arith, ground arith)

not-IsGoto : (x : Insn) → is_ja x ≡ false → ¬ (IsGoto x)
unfolding is_ja
not-IsGoto x h (a, b) = ground arith

is_cond-IsBranch : (x : Insn) → is_cond_jump x ≡ true → IsBranch x
unfolding is_cond_jump
is_cond-IsBranch x h = (ground arith, λ e. ground arith)

no_jump : (x : Insn) → is_ja x ≡ false → is_cond_jump x ≡ false → bit_and x.code 0x07 ≢ 5
unfolding is_ja is_cond_jump
no_jump x j c e = ground arith

-- A slot of `final_targets` is the end of the chain from its index.
final_targets-LeadsTo :
    (p xs : List Insn) (i j t : ℕ)
    → ((n : ℕ) → get_elem? xs n ≡ get_elem? p (i + n))
    → t ≡ i + j
    → LeadsTo p t (get_or (final_targets i xs) j t)
unfolding final_targets
final_targets-LeadsTo p [] i j t same e = past_end (ap (get_elem? p) e ∙ sym (same j))
final_targets-LeadsTo p (x ∷ xs) i zero t same e =
    let here : get_elem? p t ≡ some x = ap (get_elem? p) e ∙ sym (same 0) in
    let next : (n : ℕ) → get_elem? xs n ≡ get_elem? p (i + 1 + n) =
      λ n. same (suc n) ∙ ap (get_elem? p) (omega arith) in
    let q : i ≡ t = omega arith in
    elim (Bool-cases (is_ja x)) [
      | inl h ↦ rw h (
          by_goto here (is_ja-IsGoto x h) (
            subst (λ n. LeadsTo p n (get_or (final_targets (i + 1) xs) x.k (i + 1 + x.k)))
              (omega arith) (final_targets-LeadsTo p xs (i + 1) x.k (i + 1 + x.k) next refl)))
      | inr h ↦ rw (h, q) (at_insn here (not-IsGoto x h))
    ]
final_targets-LeadsTo p (x ∷ xs) i (suc j) t same e =
    final_targets-LeadsTo p xs (i + 1) j t (λ n. same (suc n) ∙ ap (get_elem? p) (omega arith))
      (omega arith)

final_target-LeadsTo : (p : List Insn) (t : ℕ) → LeadsTo p t (final_target (fin p) t)
unfolding final_target fin
final_target-LeadsTo p t =
    final_targets-LeadsTo p p 0 t t (λ n. ap (get_elem? p) (omega arith)) (omega arith)

narrow_u8-Field : (j old u : ℕ) → j + 1 ≤ u → Field j old u (narrow_u8 (u - j - 1) old)
unfolding narrow_u8
narrow_u8-Field j old u h = elim (Bool-cases (ltb (u - j - 1) 256)) [
  | inl b ↦ rw b (reaches (omega arith) (ground arith))
  | inr b ↦ rw b (too_far (ground arith))
]

thread_branch :
    (f : List ℕ) (i : ℕ) (x : Insn)
    → is_ja x ≡ false
    → is_cond_jump x ≡ true
    → thread_insn f i x ≡ record x {
      jt = narrow_u8 (final_target f (i + 1 + x.jt) - i - 1) x.jt;
      jf = narrow_u8 (final_target f (i + 1 + x.jf) - i - 1) x.jf;
    }
unfolding thread_insn
thread_branch f i x j c = rw (j, c) refl

thread_other :
    (f : List ℕ) (i : ℕ) (x : Insn)
    → is_ja x ≡ false
    → is_cond_jump x ≡ false
    → thread_insn f i x ≡ x
unfolding thread_insn
thread_other f i x j c = rw (j, c) refl

thread_insn-Threaded :
    (p : List Insn)
    → IsSane p
    → (j : ℕ) (x : Insn) → get_elem? p j ≡ some x
    → Threaded p j x (thread_insn (fin p) j x)
thread_insn-Threaded p sane j x e = elim (Bool-cases (is_ja x)) [
  | inl g ↦
      let y : Insn = thread_insn (fin p) j x in
      let same : y ≡ record x { k = y.k } =
        thread_insn_ja (fin p) j x g
        ∙ ap (λ z. record x { k = z.k }) (sym (thread_insn_ja (fin p) j x g)) in
      subst (Threaded p j x) (sym same) (
        goto (is_ja-IsGoto x g) (
          subst (LeadsTo p (j + 1 + x.k)) (sym (threaded_ja_target p sane j x e g))
            (final_target-LeadsTo p (j + 1 + x.k))))
  | inr g ↦ elim (Bool-cases (is_cond_jump x)) [
    | inl c ↦
        let there = λ (t : ℕ). final_target-LeadsTo p t in
        subst (Threaded p j x) (sym (thread_branch (fin p) j x g c)) (
          branch (is_cond-IsBranch x c) (there (j + 1 + x.jt)) (there (j + 1 + x.jf))
            (narrow_u8-Field j x.jt _ (omega (arith, fin_ge p (j + 1 + x.jt))))
            (narrow_u8-Field j x.jf _ (omega (arith, fin_ge p (j + 1 + x.jf)))))
    | inr c ↦ subst (Threaded p j x) (sym (thread_other (fin p) j x g c)) (other (no_jump x g c))
  ]
]

-- For every sane program `thread_jumps` changes no number of instructions, and at each index it puts the
-- instruction whose jump goes to the end of the chain of unconditional jumps at its old target; a field
-- of a conditional jump stays if eight bits do not hold the offset to that end, and what is no jump stays.
pub thread_jumps-Threaded :
    (p : List Insn)
    → IsSane p
    → (length (thread_jumps p) ≡ length p)
      × ((j : ℕ) (x : Insn)
          → get_elem? p j ≡ some x
          → (y : Insn) × (get_elem? (thread_jumps p) j ≡ some y) × Threaded p j x y)
thread_jumps-Threaded p sane = (
  length-thread_jumps p,
  λ j x e. (thread_insn (fin p) j x, get_thread p j x e, thread_insn-Threaded p sane j x e),
)
