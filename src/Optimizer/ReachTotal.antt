-- ===== src/Optimizer/ReachTotal.antt =====
-- pktbaffle/src/optimizer.rs: the walk of `reachable_marks` ends.
use pktbaffle.Prelude.{
  ℕ, zero, suc, ◌+◌, ◌*◌, ◌≤◌, ◌≡◌, inl, inr, refl, ◌∙◌, Bool, true, false, some, if◌then◌else◌,
  arith, List, [], ◌∷◌, get_elem?, get_or, set, replicate, length, Bool-cases, Option-cases,
}
use pktbaffle.Bpf.{Insn}
use pktbaffle.Optimizer.{successors, push_all, reach_loop, reachable_marks}
use pktbaffle.Optimizer.Reach.{loop_empty, loop_off, loop_old, loop_new}

-- The measure that bounds the walk: two pushes for each unmarked instruction, and the stack.
unmarked : List Bool → ℕ
unmarked [] = 0
unmarked (m ∷ marks) = (if m then 0 else 1) + unmarked marks

unmarked-set :
    (marks : List Bool) (i : ℕ)
    → get_or marks i true ≡ false
    → unmarked (set marks i true) + 1 ≡ unmarked marks
unfolding unmarked
unmarked-set [] i h = cc
unmarked-set (m ∷ marks) zero h = ground arith
unmarked-set (m ∷ marks) (suc i) h = omega (arith, unmarked-set marks i h)

unmarked-replicate : (n : ℕ) → unmarked (replicate n false) ≡ n
unfolding unmarked
unmarked-replicate zero = refl
unmarked-replicate (suc n) = omega (arith, unmarked-replicate n)

length-push_all : (xs ys : List ℕ) → length (push_all xs ys) ≡ length xs + length ys
length-push_all [] ys = omega arith
length-push_all (x ∷ xs) ys = omega (arith, length-push_all xs ys)

length-successors : (x : Insn) (i : ℕ) → length (successors x i) ≤ 2
unfolding successors
length-successors x i = ground arith

walk_total :
    (p : List Insn) (fuel : ℕ) (stack : List ℕ) (marks : List Bool)
    → 2 * unmarked marks + length stack ≤ fuel
    → (res : List Bool) × (reach_loop fuel p stack marks ≡ some res)
walk_total p fuel [] marks h = (marks, loop_empty p fuel marks)
walk_total p zero (i ∷ stack) marks h = absurd (omega arith)
walk_total p (suc fuel) (i ∷ stack) marks h = elim (Option-cases (get_elem? p i)) [
  | inl off ↦
      let (res, q) = walk_total p fuel stack marks (omega arith) in
      (res, loop_off p fuel i stack marks off ∙ q)
  | inr (x, here) ↦ elim (Bool-cases (get_or marks i true)) [
    | inl old ↦
        let (res, q) = walk_total p fuel stack marks (omega arith) in
        (res, loop_old p fuel i stack marks x here old ∙ q)
    | inr new ↦
        let (res, q) = walk_total p fuel (push_all (successors x i) stack) (set marks i true) (
          omega (
            arith,
            unmarked-set marks i new,
            length-push_all (successors x i) stack,
            length-successors x i,
          )) in
        (res, loop_new p fuel i stack marks x here new ∙ q)
  ]
]

-- The walk ends: the fuel of `2 n + 1` turns for `n` instructions is enough.
pub reachable_marks_total : (p : List Insn) → (res : List Bool) × (reachable_marks p ≡ some res)
unfolding reachable_marks
reachable_marks_total p =
    walk_total p (suc (2 * length p)) (0 ∷ []) (replicate (length p) false)
      (omega (arith, unmarked-replicate (length p)))
