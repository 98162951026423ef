-- ===== src/Optimizer/Reach.antt =====
-- pktbaffle/src/optimizer.rs: the walk of `reachable_marks` marks the entry, and every target of what
-- it marks.
use pktbaffle.Prelude.{
  ℕ, zero, suc, ◌+◌, ◌*◌, ◌≤◌, ◌<◌, ◌≡◌, ◌≢◌, ◌⊎◌, inl, inr, refl, sym, ap, ◌∙◌, Bool, true, false,
  some, none, arith, List, [], ◌∷◌, get_elem?, get_or, set, replicate, length, Bool-cases,
  Option-cases, lt_of_get_elem?, length-replicate, length-set, get_elem?-set_self, get_elem?-set_ne,
  get_elem?-lt, ge_of_get_elem?, get_or_lem, subst,
}
use native.Mathlib.Decide.{ℕ_discrete}
use pktbaffle.Bpf.{Insn}
use pktbaffle.Optimizer.{successors, push_all, reach_loop, reachable_marks}
use pktbaffle.Optimizer.Flow.{Edge, by_ja, by_jt, by_jf, by_fall}

abbrev pub In : ℕ → List ℕ → Type 0
In t [] = ⊥
In t (y ∷ ys) = (t ≡ y) ⊎ In t ys

In-push_all_left : (t : ℕ) (xs ys : List ℕ) → In t xs → In t (push_all xs ys)
In-push_all_left t [] ys h = absurd h
In-push_all_left t (x ∷ xs) ys (inl e) = inl e
In-push_all_left t (x ∷ xs) ys (inr h) = inr (In-push_all_left t xs ys h)

In-push_all_right : (t : ℕ) (xs ys : List ℕ) → In t ys → In t (push_all xs ys)
In-push_all_right t [] ys h = h
In-push_all_right t (x ∷ xs) ys h = inr (In-push_all_right t xs ys h)

-- The walk pushes the target of every edge.
Edge-successors : (x : Insn) (i d t : ℕ) → Edge x d → t ≡ i + 1 + d → In t (successors x i)
unfolding successors
Edge-successors x i d t (by_ja r j e) q = rw (r, j) (inl (omega arith))
Edge-successors x i d t (by_jt r j c e) q = rw (r, j, c) (inr (inl (omega arith)))
Edge-successors x i d t (by_jf r j c e) q = rw (r, j, c) (inl (omega arith))
Edge-successors x i d t (by_fall r j c e) q = rw (r, j, c) (inl (omega arith))

abbrev pub Marked : List Bool → ℕ → Type 0
Marked marks i = get_elem? marks i ≡ some true

Marked-set : (marks : List Bool) (i j : ℕ) → Marked marks j → Marked (set marks i true) j
Marked-set marks i j h = elim (ℕ_discrete i j) [
  | yes e ↦ rw e (get_elem?-set_self marks j true (lt_of_get_elem? marks j h))
  | no n ↦ get_elem?-set_ne marks i j true n ∙ h
]

-- A mark that is new after a write is the one that was written.
Marked-set_inv :
    (marks : List Bool) (i j : ℕ) → Marked (set marks i true) j → (j ≡ i) ⊎ Marked marks j
Marked-set_inv marks i j h = elim (ℕ_discrete i j) [
  | yes e ↦ inl (sym e)
  | no n ↦ inr (sym (get_elem?-set_ne marks i j true n) ∙ h)
]

-- Every target of a marked instruction is on the stack, marked, or past the end.
abbrev Pending : List Insn → List ℕ → List Bool → Type 0
Pending p stack marks =
    (i : ℕ) (x : Insn) (t : ℕ)
    → get_elem? p i ≡ some x
    → Marked marks i
    → In t (successors x i)
    → In t stack ⊎ Marked marks t ⊎ (length p ≤ t)

pub loop_empty :
    (p : List Insn) (fuel : ℕ) (marks : List Bool) → reach_loop fuel p [] marks ≡ some marks
unfolding reach_loop
loop_empty p zero marks = refl
loop_empty p (suc fuel) marks = refl

module _ (p : List Insn) (fuel i : ℕ) (stack : List ℕ) (marks : List Bool) where
  pub loop_off :
      get_elem? p i ≡ none
      → reach_loop (suc fuel) p (i ∷ stack) marks ≡ reach_loop fuel p stack marks
  unfolding reach_loop
  loop_off e = ground arith

  pub loop_old :
      (x : Insn)
      → get_elem? p i ≡ some x
      → get_or marks i true ≡ true
      → reach_loop (suc fuel) p (i ∷ stack) marks ≡ reach_loop fuel p stack marks
  unfolding reach_loop
  loop_old x e m = ground arith

  pub loop_new :
      (x : Insn)
      → get_elem? p i ≡ some x
      → get_or marks i true ≡ false
      → reach_loop (suc fuel) p (i ∷ stack) marks
        ≡ reach_loop fuel p (push_all (successors x i) stack) (set marks i true)
  unfolding reach_loop
  loop_new x e m = ground arith

Marked-of_get_or :
    (marks : List Bool) (i : ℕ) → i < length marks → get_or marks i true ≡ true → Marked marks i
Marked-of_get_or marks i h e =
    let (b, q) = get_elem?-lt marks i h in q ∙ ap some (sym (get_or_lem marks i true q) ∙ e)

-- What the walk promises of its result.
pub record Walk (p : List Insn) (stack : List ℕ) (marks res : List Bool) : Type 0 where
  pub closed :
      (i : ℕ) (x : Insn) (t : ℕ)
      → get_elem? p i ≡ some x
      → Marked res i
      → In t (successors x i)
      → Marked res t ⊎ (length p ≤ t)
  pub reaches : (t : ℕ) → In t stack → Marked res t ⊎ (length p ≤ t)
  pub keeps : (t : ℕ) → Marked marks t → Marked res t
  pub same_length : length res ≡ length marks

module _ (p : List Insn) where
  Pending-off :
      (i : ℕ) (stack : List ℕ) (marks : List Bool)
      → Marked marks i ⊎ (length p ≤ i)
      → Pending p (i ∷ stack) marks
      → Pending p stack marks
  Pending-off i stack marks d pend j x t e m s = elim (pend j x t e m s) [
    | inl (inl q) ↦ inr (subst (λ u. Marked marks u ⊎ (length p ≤ u)) (sym q) d)
    | inl (inr q) ↦ inl q
    | inr q ↦ inr q
  ]

  Pending-new :
      (i : ℕ) (x : Insn) (stack : List ℕ) (marks : List Bool)
      → length marks ≡ length p
      → get_elem? p i ≡ some x
      → Pending p (i ∷ stack) marks
      → Pending p (push_all (successors x i) stack) (set marks i true)
  Pending-new i x stack marks l e pend j y t f m s = elim (Marked-set_inv marks i j m) [
    | inl q ↦
        let same : y ≡ x = some_inj (sym f ∙ ap (get_elem? p) q ∙ e) in
        inl (In-push_all_left t (successors x i) stack (rw same at rw q at s))
    | inr old ↦ elim (pend j y t f old s) [
      | inl (inl q) ↦
          inr (inl (rw q (get_elem?-set_self marks i true (omega (arith, lt_of_get_elem? p i e)))))
      | inl (inr q) ↦ inl (In-push_all_right t (successors x i) stack q)
      | inr (inl q) ↦ inr (inl (Marked-set marks i t q))
      | inr (inr q) ↦ inr (inr q)
    ]
  ]
    where
      some_inj : {a b : Insn} → some a ≡ some b → a ≡ b
      some_inj h = cc

  -- A dropped index was marked or out of range.
  Walk-off :
      (i : ℕ) (stack : List ℕ) (marks res : List Bool)
      → Marked marks i ⊎ (length p ≤ i)
      → Walk p stack marks res
      → Walk p (i ∷ stack) marks res
  Walk-off i stack marks res d w = record {
    closed = w.closed;
    reaches = reaches;
    keeps = w.keeps;
    same_length = w.same_length;
  }
    where
      dropped : Marked res i ⊎ (length p ≤ i)
      dropped = elim d [ inl m ↦ inl (w.keeps i m) | inr g ↦ inr g ]

      reaches : (t : ℕ) → In t (i ∷ stack) → Marked res t ⊎ (length p ≤ t)
      reaches t (inl q) = subst (λ u. Marked res u ⊎ (length p ≤ u)) (sym q) dropped
      reaches t (inr q) = w.reaches t q

  Walk-new :
      (i : ℕ) (x : Insn) (stack : List ℕ) (marks res : List Bool)
      → i < length marks
      → Walk p (push_all (successors x i) stack) (set marks i true) res
      → Walk p (i ∷ stack) marks res
  Walk-new i x stack marks res h w = record {
    closed = w.closed;
    reaches = reaches;
    keeps = λ t m. w.keeps t (Marked-set marks i t m);
    same_length = w.same_length ∙ length-set marks i true;
  }
    where
      reaches : (t : ℕ) → In t (i ∷ stack) → Marked res t ⊎ (length p ≤ t)
      reaches t (inl q) = inl (rw q (w.keeps i (get_elem?-set_self marks i true h)))
      reaches t (inr q) = w.reaches t (In-push_all_right t (successors x i) stack q)

  Walk-empty : (marks : List Bool) → Pending p [] marks → Walk p [] marks marks
  Walk-empty marks pend = record {
    closed = λ i x t e m s. elim (pend i x t e m s) [ inl q ↦ absurd q | inr q ↦ q ];
    reaches = λ t q. absurd q;
    keeps = λ t m. m;
    same_length = refl;
  }

  some_marks : {a b : List Bool} → some a ≡ some b → a ≡ b
  some_marks h = cc

  walk :
      (fuel : ℕ) (stack : List ℕ) (marks res : List Bool)
      → length marks ≡ length p
      → Pending p stack marks
      → reach_loop fuel p stack marks ≡ some res
      → Walk p stack marks res
  unfolding reach_loop
  walk fuel [] marks res l pend e =
      let same : marks ≡ res = some_marks (sym (loop_empty p fuel marks) ∙ e) in
      rw (← same) (Walk-empty marks pend)
  walk zero (i ∷ stack) marks res l pend e = cc
  walk (suc fuel) (i ∷ stack) marks res l pend e = elim (Option-cases (get_elem? p i)) [
    | inl off ↦
        let d : Marked marks i ⊎ (length p ≤ i) = inr (ge_of_get_elem? p i off) in
        Walk-off i stack marks res d (
          walk fuel stack marks res l (Pending-off i stack marks d pend)
            (sym (loop_off p fuel i stack marks off) ∙ e))
    | inr (x, here) ↦
        let small : i < length marks = omega (arith, lt_of_get_elem? p i here) in
        elim (Bool-cases (get_or marks i true)) [
          | inl old ↦
              let d : Marked marks i ⊎ (length p ≤ i) = inl (Marked-of_get_or marks i small old) in
              Walk-off i stack marks res d (
                walk fuel stack marks res l (Pending-off i stack marks d pend)
                  (sym (loop_old p fuel i stack marks x here old) ∙ e))
          | inr new ↦ Walk-new i x stack marks res small (
              walk fuel (push_all (successors x i) stack) (set marks i true) res
                (length-set marks i true ∙ l) (Pending-new i x stack marks l here pend)
                (sym (loop_new p fuel i stack marks x here new) ∙ e))
        ]
  ]

-- The marks hold the entry and every in-range target of a marked instruction.
pub reachable_marks-Walk :
    (p : List Insn) (res : List Bool)
    → reachable_marks p ≡ some res
    → Walk p (0 ∷ []) (replicate (length p) false) res
unfolding reachable_marks
reachable_marks-Walk p res e =
    walk p (suc (2 * length p)) (0 ∷ []) (replicate (length p) false) res
      (length-replicate (length p) false) (λ i x t g m s. absurd (unmarked_start (length p) i m)) e
  where
    unmarked_start : (n i : ℕ) → get_elem? (replicate n false) i ≢ some true
    unmarked_start zero i = λ m. cc
    unmarked_start (suc n) zero = λ m. cc
    unmarked_start (suc n) (suc i) = unmarked_start n i

-- The target of an edge out of a marked instruction is marked, or past the end.
pub Edge-Marked :
    {p : List Insn} {stack : List ℕ} {marks res : List Bool} (i : ℕ) (x : Insn) (d : ℕ)
    → Walk p stack marks res
    → get_elem? p i ≡ some x
    → Marked res i
    → Edge x d
    → Marked res (i + 1 + d) ⊎ (length p ≤ i + 1 + d)
Edge-Marked i x d w e m edge =
    w.closed i x (i + 1 + d) e m (Edge-successors x i d (i + 1 + d) edge refl)
