-- ===== src/Optimizer/Flow.antt =====
-- pktbaffle/src/optimizer.rs: the sweep of `redundant_load_marks` is a sound forward dataflow.
use pktbaffle.Prelude.{
  ℕ, zero, suc, ◌+◌, ◌<◌, ◌≡◌, ◌↔◌, ◌⊎◌, inr, refl, ap, ◌∙◌, true, false, some, none, Option, arith,
  List, [], ◌∷◌, get_elem?, get_or, replicate, length, length-replicate, length-set,
}
use pktbaffle.Bpf.{Insn}
use pktbaffle.Optimizer.{
  AState, unknown, load, state_eq, meet, meet_at, transfer, propagate, is_redundant, sweep, is_ret,
  is_ja, is_cond_jump, initial_slots,
}
use pktbaffle.Optimizer.Decode.{a_ret, a_ja, a_cond, a_straight, classify}

abbrev pub slot_at : List (Option AState) → ℕ → Option AState
slot_at slots j = get_or slots j none

-- A slot allows for `out`: it holds `out`, or nothing is known there.
abbrev pub Covers : AState → Option AState → Type 0
Covers out slot = (slot ≡ some unknown) ⊎ (slot ≡ some out)

pub state_eq_iff : (a b : AState) → (state_eq a b ≡ true) ↔ (a ≡ b)
unfolding state_eq
state_eq_iff unknown unknown = ground arith
state_eq_iff (load c k) (load c' k') = ground arith
state_eq_iff unknown (load c k) = ground arith
state_eq_iff (load c k) unknown = ground arith

meet-Covers : (slot : Option AState) (out : AState) → Covers out (meet slot out)
unfolding meet
meet-Covers none out = inr refl
meet-Covers (some prev) out = ground arith

meet-Covers_old :
    (slot : Option AState) (out incoming : AState)
    → Covers out slot
    → Covers out (meet slot incoming)
unfolding meet
meet-Covers_old none out incoming h = ground arith
meet-Covers_old (some prev) out incoming h = ground (arith, state_eq_iff prev incoming)

pub length-meet_at :
    (d : ℕ) (out : AState) (slots : List (Option AState))
    → length (meet_at d out slots) ≡ length slots
unfolding meet_at
length-meet_at zero out [] = refl
length-meet_at (suc d) out [] = refl
length-meet_at zero out (slot ∷ slots) = refl
length-meet_at (suc d) out (slot ∷ slots) = ap suc (length-meet_at d out slots)

meet_at-Covers :
    (d : ℕ) (out : AState) (slots : List (Option AState))
    → d < length slots
    → Covers out (slot_at (meet_at d out slots) d)
unfolding meet_at
meet_at-Covers d out [] h = elim h [ ]
meet_at-Covers zero out (slot ∷ slots) h = meet-Covers slot out
meet_at-Covers (suc d) out (slot ∷ slots) h = meet_at-Covers d out slots (omega arith)

meet_at-Covers_old :
    (d : ℕ) (incoming out : AState) (slots : List (Option AState)) (j : ℕ)
    → Covers out (slot_at slots j)
    → Covers out (slot_at (meet_at d incoming slots) j)
unfolding meet_at
meet_at-Covers_old d incoming out [] j h = absurd (ground arith)
meet_at-Covers_old zero incoming out (slot ∷ slots) zero h = meet-Covers_old slot out incoming h
meet_at-Covers_old zero incoming out (slot ∷ slots) (suc j) h = h
meet_at-Covers_old (suc d) incoming out (slot ∷ slots) zero h = h
meet_at-Covers_old (suc d) incoming out (slot ∷ slots) (suc j) h =
    meet_at-Covers_old d incoming out slots j h

-- An edge from an instruction to the one `d` places after the next.
pub data Edge (x : Insn) (d : ℕ) : Type 0 where
  by_ja : is_ret x ≡ false → is_ja x ≡ true → d ≡ x.k → Edge x d
  by_jt : is_ret x ≡ false → is_ja x ≡ false → is_cond_jump x ≡ true → d ≡ x.jt → Edge x d
  by_jf : is_ret x ≡ false → is_ja x ≡ false → is_cond_jump x ≡ true → d ≡ x.jf → Edge x d
  by_fall : is_ret x ≡ false → is_ja x ≡ false → is_cond_jump x ≡ false → d ≡ 0 → Edge x d

module _ (x : Insn) (out : AState) (slots : List (Option AState)) where
  length-propagate : length (propagate x out slots) ≡ length slots
  unfolding propagate
  length-propagate = ground (
    arith,
    length-meet_at x.k out slots,
    length-meet_at x.jf out (meet_at x.jt out slots),
    length-meet_at x.jt out slots,
    length-meet_at 0 out slots,
  )

  propagate-Covers :
      (d : ℕ) → Edge x d → d < length slots → Covers out (slot_at (propagate x out slots) d)
  unfolding propagate
  propagate-Covers d (by_ja r j e) h = rw (r, j, e) (meet_at-Covers x.k out slots (omega arith))
  propagate-Covers d (by_jt r j c e) h =
      rw (r, j, c, e)
        (meet_at-Covers_old x.jf out out (meet_at x.jt out slots) x.jt
          (meet_at-Covers x.jt out slots (omega arith)))
  propagate-Covers d (by_jf r j c e) h =
      rw (r, j, c, e)
        (meet_at-Covers x.jf out (meet_at x.jt out slots)
          (omega (arith, length-meet_at x.jt out slots)))
  propagate-Covers d (by_fall r j c e) h =
      rw (r, j, c, e) (meet_at-Covers 0 out slots (omega arith))

  propagate-Covers_old :
      (o : AState) (j : ℕ)
      → Covers o (slot_at slots j)
      → Covers o (slot_at (propagate x out slots) j)
  unfolding propagate
  propagate-Covers_old o j h = elim (classify x) [
    | a_ret r _ ↦ rw r h
    | a_ja r q ↦ rw (r, q) (meet_at-Covers_old x.k out o slots j h)
    | a_cond r q c ↦
        rw (r, q, c)
          (meet_at-Covers_old x.jf out o (meet_at x.jt out slots) j
            (meet_at-Covers_old x.jt out o slots j h))
    | a_straight r q c _ ↦ rw (r, q, c) (meet_at-Covers_old 0 out o slots j h)
  ]

-- The slots at the end of the sweep, each as it stood when the sweep came to its instruction.
pub final_slots : List Insn → List (Option AState) → List (Option AState)
final_slots [] slots = []
final_slots (x ∷ xs) [] = none ∷ final_slots xs []
final_slots (x ∷ xs) (none ∷ slots) = none ∷ final_slots xs slots
final_slots (x ∷ xs) (some state ∷ slots) =
    some state ∷ final_slots xs (propagate x (transfer x state) slots)

final_slots-Covers :
    (xs : List Insn) (slots : List (Option AState)) (o : AState) (j : ℕ)
    → j < length xs
    → Covers o (slot_at slots j)
    → Covers o (slot_at (final_slots xs slots) j)
unfolding final_slots
final_slots-Covers [] slots o j h c = elim h [ ]
final_slots-Covers (x ∷ xs) [] o j h c = absurd (ground arith)
final_slots-Covers (x ∷ xs) (none ∷ slots) o zero h c = c
final_slots-Covers (x ∷ xs) (some state ∷ slots) o zero h c = c
final_slots-Covers (x ∷ xs) (none ∷ slots) o (suc j) h c =
    final_slots-Covers xs slots o j (omega arith) c
final_slots-Covers (x ∷ xs) (some state ∷ slots) o (suc j) h c =
    final_slots-Covers xs (propagate x (transfer x state) slots) o j (omega arith)
      (propagate-Covers_old x (transfer x state) slots o j c)

-- Along every edge the slot of the target allows for what the accumulator holds after the source.
pub final_slots_flow :
    (xs : List Insn) (slots : List (Option AState)) (j : ℕ) (x : Insn) (state : AState) (d t : ℕ)
    → length slots ≡ length xs
    → get_elem? xs j ≡ some x
    → slot_at (final_slots xs slots) j ≡ some state
    → Edge x d
    → t ≡ j + 1 + d
    → t < length xs
    → Covers (transfer x state) (slot_at (final_slots xs slots) t)
unfolding final_slots
final_slots_flow [] slots j x state d t l g f e q h = cc
final_slots_flow (y ∷ ys) slots j x state d zero l g f e q h = absurd (omega arith)
final_slots_flow (y ∷ ys) [] j x state d (suc t) l g f e q h = absurd (omega arith)
final_slots_flow (y ∷ ys) (none ∷ slots) zero x state d (suc t) l g f e q h = cc
final_slots_flow (y ∷ ys) (some st ∷ slots) zero x state d (suc t) l g f e q h =
    let yx : y ≡ x = ground arith in
    let ss : st ≡ state = ground arith in
    let td : t ≡ d = omega arith in
    rw (yx, ss, td)
      (final_slots-Covers ys (propagate x (transfer x state) slots) (transfer x state) d
        (omega arith) (propagate-Covers x (transfer x state) slots d e (omega arith)))
final_slots_flow (y ∷ ys) (none ∷ slots) (suc j) x state d (suc t) l g f e q h =
    final_slots_flow ys slots j x state d t (omega arith) g f e (omega arith) (omega arith)
final_slots_flow (y ∷ ys) (some st ∷ slots) (suc j) x state d (suc t) l g f e q h =
    final_slots_flow ys (propagate y (transfer y st) slots) j x state d t
      (omega (arith, length-propagate y (transfer y st) slots)) g f e (omega arith) (omega arith)

-- The mark of an instruction is decided by its slot.
pub sweep_mark :
    (xs : List Insn) (slots : List (Option AState)) (j : ℕ) (x : Insn) (state : AState)
    → get_elem? xs j ≡ some x
    → slot_at (final_slots xs slots) j ≡ some state
    → get_elem? (sweep xs slots) j ≡ some (is_redundant x state)
unfolding final_slots sweep
sweep_mark [] slots j x state g f = cc
sweep_mark (y ∷ ys) [] zero x state g f = cc
sweep_mark (y ∷ ys) [] (suc j) x state g f = sweep_mark ys [] j x state g f
sweep_mark (y ∷ ys) (none ∷ slots) zero x state g f = cc
sweep_mark (y ∷ ys) (none ∷ slots) (suc j) x state g f = sweep_mark ys slots j x state g f
sweep_mark (y ∷ ys) (some st ∷ slots) zero x state g f =
    let yx : y ≡ x = ground arith in let ss : st ≡ state = ground arith in rw (yx, ss) refl
sweep_mark (y ∷ ys) (some st ∷ slots) (suc j) x state g f =
    sweep_mark ys (propagate y (transfer y st) slots) j x state g f

pub length-sweep :
    (xs : List Insn) (slots : List (Option AState)) → length (sweep xs slots) ≡ length xs
unfolding sweep
length-sweep [] slots = refl
length-sweep (x ∷ xs) [] = ap suc (length-sweep xs [])
length-sweep (x ∷ xs) (none ∷ slots) = ap suc (length-sweep xs slots)
length-sweep (x ∷ xs) (some st ∷ slots) =
    ap suc (length-sweep xs (propagate x (transfer x st) slots))

pub length-initial_slots : (xs : List Insn) → length (initial_slots xs) ≡ length xs
unfolding initial_slots
length-initial_slots xs =
    length-set (replicate (length xs) none) 0 (some unknown) ∙ length-replicate (length xs) none

-- Nothing is known of the accumulator at the entry.
pub entry_slot :
    (xs : List Insn) → 0 < length xs → slot_at (final_slots xs (initial_slots xs)) 0 ≡ some unknown
unfolding final_slots initial_slots
entry_slot [] h = elim h [ ]
entry_slot (x ∷ xs) h = refl
