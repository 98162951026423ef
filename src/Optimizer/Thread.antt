-- ===== src/Optimizer/Thread.antt =====
-- pktbaffle/src/optimizer.rs: `thread_jumps` keeps every run of the program.
use pktbaffle.Prelude.{
  ℕ, zero, suc, ◌+◌, ◌-◌, ◌%◌, ◌^◌, ◌≤◌, ◌<◌, ◌≡◌, ◌⊎◌, inl, inr, refl, sym, ap, ◌∙◌, Bool, true,
  false, some, Option, arith, List, [], ◌∷◌, get_elem?, get_or, length, Bool-cases, lt_of_get_elem?,
  subst,
}
use pktbaffle.Bpf.{Insn, IsTyped}
use pktbaffle.Vm.{Packet, Regs, turn, go, after, usize_mod}
use pktbaffle.Vm.Runs.{Runs, Fits, Runs-go, turn-some}
use pktbaffle.Optimizer.{
  is_ja, is_cond_jump, final_targets, final_target, narrow_u8, thread_insn, thread_from,
}
use pktbaffle.Optimizer.Decode.{exec_of_ja}

-- A final target lies at or after the target.
pub final_targets-ge :
    (xs : List Insn) (i j t : ℕ) → t ≡ i + j → t ≤ get_or (final_targets i xs) j t
unfolding final_targets
final_targets-ge [] i j t e = omega arith
final_targets-ge (x ∷ xs) i zero t e = elim (Bool-cases (is_ja x)) [
  | inl h ↦ ground (arith, final_targets-ge xs (i + 1) x.k (i + 1 + x.k) refl)
  | inr h ↦ ground arith
]
final_targets-ge (x ∷ xs) i (suc j) t e = final_targets-ge xs (i + 1) j t (omega arith)

-- The targets of the `ja`s of a suffix are below 2 ^ 32.
abbrev pub Lands : ℕ → List Insn → Type 0
Lands i xs =
    (j : ℕ) (x : Insn) → get_elem? xs j ≡ some x → is_ja x ≡ true → i + j + 1 + x.k < 2 ^ 32

Lands-tail : (i : ℕ) (x : Insn) (xs : List Insn) → Lands i (x ∷ xs) → Lands (i + 1) xs
Lands-tail i x xs h j y e jy = omega (arith, h (suc j) y e jy)

pub final_targets-lt :
    (xs : List Insn) (i j t : ℕ)
    → Lands i xs
    → t ≡ i + j
    → t < 2 ^ 32
    → get_or (final_targets i xs) j t < 2 ^ 32
unfolding final_targets
final_targets-lt [] i j t lands e h = h
final_targets-lt (x ∷ xs) i zero t lands e h = elim (Bool-cases (is_ja x)) [
  | inl jx ↦
      let b : i + 0 + 1 + x.k < 2 ^ 32 = lands 0 x refl jx in
      ground (
        arith,
        final_targets-lt xs (i + 1) x.k (i + 1 + x.k) (Lands-tail i x xs lands) refl (omega arith),
      )
  | inr jx ↦ ground arith
]
final_targets-lt (x ∷ xs) i (suc j) t lands e h =
    final_targets-lt xs (i + 1) j t (Lands-tail i x xs lands) (omega arith) h

pub length-thread_from :
    (fin : List ℕ) (i : ℕ) (xs : List Insn) → length (thread_from fin i xs) ≡ length xs
unfolding thread_from
length-thread_from fin i [] = refl
length-thread_from fin i (x ∷ xs) = ap suc (length-thread_from fin (i + 1) xs)

pub get_elem?-thread_from :
    (fin : List ℕ) (i : ℕ) (xs : List Insn) (j t : ℕ) (x : Insn)
    → t ≡ i + j
    → get_elem? xs j ≡ some x
    → get_elem? (thread_from fin i xs) j ≡ some (thread_insn fin t x)
unfolding thread_from
get_elem?-thread_from fin i [] j t x e h = cc
get_elem?-thread_from fin i (y ∷ xs) zero t x e h =
    let e' : i ≡ t = omega arith in let h' : y ≡ x = ground arith in rw (e', h') refl
get_elem?-thread_from fin i (y ∷ xs) (suc j) t x e h =
    get_elem?-thread_from fin (i + 1) xs j t x (omega arith) h

module _ (p : List Insn) (pkt : Packet) (fits : Fits p) where
  pub turn_ja :
      (pc : ℕ) (s : Regs) (x : Insn)
      → get_elem? p pc ≡ some x
      → is_ja x ≡ true
      → turn p pkt pc s ≡ go (pc + 1 + x.k) s
  turn_ja pc s x e j =
      let t : IsTyped x = fits.typed pc x e in
      let small : pc + 1 + x.k < usize_mod =
        omega (arith, lt_of_get_elem? p pc e, fits.short, t.k_u32) in
      turn-some p pkt pc s x e ∙ ap after (exec_of_ja x pkt (pc + 1) s j small)

  -- A run that starts at a target goes on from the final target with the same registers.
  chase :
      (xs : List Insn) (i j t : ℕ) (s : Regs) {r : Option Bool}
      → ((m : ℕ) → get_elem? xs m ≡ get_elem? p (i + m))
      → t ≡ i + j
      → Runs p pkt t s r
      → Runs p pkt (get_or (final_targets i xs) j t) s r
  unfolding final_targets
  chase [] i j t s at e w = w
  chase (x ∷ xs) i zero t s {r} at e w =
      let here : t ≡ i = omega arith in
      let w' : Runs p pkt i s r = subst (λ u. Runs p pkt u s r) here w in
      let x_here : get_elem? p i ≡ some x = sym (at 0 ∙ ap (get_elem? p) (omega arith)) in
      elim (Bool-cases (is_ja x)) [
        | inl jx ↦ rw jx (
            chase xs (i + 1) x.k (i + 1 + x.k) s (λ m. at (suc m) ∙ ap (get_elem? p) (omega arith))
              refl (Runs-go p pkt (i + 1 + x.k) s w' (turn_ja i s x x_here jx)))
        | inr jx ↦ rw jx w'
      ]
  chase (x ∷ xs) i (suc j) t s at e w =
      chase xs (i + 1) j t s (λ m. at (suc m) ∙ ap (get_elem? p) (omega arith)) (omega arith) w

  pub chase_entry :
      (t : ℕ) (s : Regs) {r : Option Bool}
      → Runs p pkt t s r
      → Runs p pkt (final_target (final_targets 0 p) t) s r
  unfolding final_target
  chase_entry t s w = chase p 0 t t s (λ m. ap (get_elem? p) (omega arith)) (omega arith) w

-- The instruction that threading leaves at a place, by its kind.
pub thread_insn_plain :
    (fin : List ℕ) (i : ℕ) (x : Insn)
    → is_ja x ≡ false
    → is_cond_jump x ≡ false
    → thread_insn fin i x ≡ x
unfolding thread_insn
thread_insn_plain fin i x j c = rw (j, c) refl

pub thread_insn_ja :
    (fin : List ℕ) (i : ℕ) (x : Insn)
    → is_ja x ≡ true
    → thread_insn fin i x ≡ record x { k = (final_target fin (i + 1 + x.k) - i - 1) % 2 ^ 32 }
unfolding thread_insn
thread_insn_ja fin i x j = rw j refl

pub thread_insn_cond :
    (fin : List ℕ) (i : ℕ) (x : Insn)
    → is_ja x ≡ false
    → is_cond_jump x ≡ true
    → thread_insn fin i x ≡ record x {
      jt = narrow_u8 (final_target fin (i + 1 + x.jt) - i - 1) x.jt;
      jf = narrow_u8 (final_target fin (i + 1 + x.jf) - i - 1) x.jf;
    }
unfolding thread_insn
thread_insn_cond fin i x j c = rw (j, c) refl

-- A narrowed offset leads to the target or to its final target.
pub narrowed :
    (i fi f : ℕ)
    → i < fi
    → (i + 1 + narrow_u8 (fi - i - 1) f ≡ fi) ⊎ (i + 1 + narrow_u8 (fi - i - 1) f ≡ i + 1 + f)
unfolding narrow_u8
narrowed i fi f h = ground arith
