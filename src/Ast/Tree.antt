-- ===== src/Ast/Tree.antt =====
-- pktbaffle/src/ast.rs: `Clone`, `PartialEq` and `Drop` of `Expr` walk the tree with an explicit
-- stack. The equality of the leaves is an argument.
use pktbaffle.Prelude.{
  ℕ, zero, suc, ◌+◌, ◌≤◌, ◌≡◌, ◌↔◌, refl, ap, ap₂, subst, ◌&&◌, ◌∙◌, Bool, true, false, Option,
  none, some, List, [], ◌∷◌, arith, if◌then◌else◌,
}
use pktbaffle.Ast.{Expr, and, or, not, primitive, Primitive}

unfoldable pub size : Expr → ℕ
size (and l r) = 1 + size l + size r
size (or l r) = 1 + size l + size r
size (not e) = 1 + size e
size (primitive p) = 1

stack_size : List (Expr × Expr) → ℕ
stack_size [] = 0
stack_size ((a, b) ∷ stack) = size a + stack_size stack

-- `PartialEq::eq`: the loop over the stack of pairs. `none` means that the fuel ran out.
module _ (leaf_eq : Primitive → Primitive → Bool) where
  unfoldable pub eq_loop : ℕ → List (Expr × Expr) → Option Bool
  eq_loop fuel [] = some true
  eq_loop zero (pair ∷ stack) = none
  eq_loop (suc fuel) ((and al ar, and bl br) ∷ stack) = eq_loop fuel ((al, bl) ∷ (ar, br) ∷ stack)
  eq_loop (suc fuel) ((or al ar, or bl br) ∷ stack) = eq_loop fuel ((al, bl) ∷ (ar, br) ∷ stack)
  eq_loop (suc fuel) ((not a, not b) ∷ stack) = eq_loop fuel ((a, b) ∷ stack)
  eq_loop (suc fuel) ((primitive a, primitive b) ∷ stack) =
      let rest = eq_loop fuel stack in if leaf_eq a b then rest else some false
  eq_loop (suc fuel) (_ ∷ stack) = some false

  unfoldable pub expr_eq : Expr → Expr → Option Bool
  unfolding size
  expr_eq a b = eq_loop (size a) ((a, b) ∷ [])

-- The derived equality: the same variant, equal children, equal payloads.
module _ (leaf_eq : Primitive → Primitive → Bool) where
  pub same : Expr → Expr → Bool
  same (and al ar) (and bl br) = same al bl && same ar br
  same (or al ar) (or bl br) = same al bl && same ar br
  same (not a) (not b) = same a b
  same (primitive a) (primitive b) = leaf_eq a b
  same _ _ = false

  all_same : List (Expr × Expr) → Bool
  unfolding same
  all_same [] = true
  all_same ((a, b) ∷ stack) = same a b && all_same stack

and-true : (a b : Bool) → (a && b) ≡ true → (a ≡ true) × (b ≡ true)
and-true true b h = (refl, h)
and-true false b h = absurd (ground arith)

some_iff : {a b : Bool} → some a ≡ some b → a ≡ b
some_iff h = cc

-- Each turn takes one node off the left side of the stack.
eq_loop-all_same :
    (leaf_eq : Primitive → Primitive → Bool) (fuel : ℕ) (stack : List (Expr × Expr))
    → stack_size stack ≤ fuel
    → eq_loop leaf_eq fuel stack ≡ some (all_same leaf_eq stack)
unfolding eq_loop all_same stack_size size
eq_loop-all_same leaf_eq zero [] h = refl
eq_loop-all_same leaf_eq (suc fuel) [] h = refl
eq_loop-all_same leaf_eq zero ((and al ar, b) ∷ stack) h = absurd (omega arith)
eq_loop-all_same leaf_eq zero ((or al ar, b) ∷ stack) h = absurd (omega arith)
eq_loop-all_same leaf_eq zero ((not a, b) ∷ stack) h = absurd (omega arith)
eq_loop-all_same leaf_eq zero ((primitive a, b) ∷ stack) h = absurd (omega arith)
eq_loop-all_same leaf_eq (suc fuel) ((and al ar, and bl br) ∷ stack) h =
    eq_loop-all_same leaf_eq fuel ((al, bl) ∷ (ar, br) ∷ stack) (omega arith)
    ∙ ap some (ground arith)
eq_loop-all_same leaf_eq (suc fuel) ((or al ar, or bl br) ∷ stack) h =
    eq_loop-all_same leaf_eq fuel ((al, bl) ∷ (ar, br) ∷ stack) (omega arith)
    ∙ ap some (ground arith)
eq_loop-all_same leaf_eq (suc fuel) ((not a, not b) ∷ stack) h =
    eq_loop-all_same leaf_eq fuel ((a, b) ∷ stack) (omega arith)
eq_loop-all_same leaf_eq (suc fuel) ((primitive a, primitive b) ∷ stack) h =
    ground (arith, eq_loop-all_same leaf_eq fuel stack (omega arith))
eq_loop-all_same leaf_eq (suc fuel) ((and al ar, or bl br) ∷ stack) h = refl
eq_loop-all_same leaf_eq (suc fuel) ((and al ar, not b) ∷ stack) h = refl
eq_loop-all_same leaf_eq (suc fuel) ((and al ar, primitive b) ∷ stack) h = refl
eq_loop-all_same leaf_eq (suc fuel) ((or al ar, and bl br) ∷ stack) h = refl
eq_loop-all_same leaf_eq (suc fuel) ((or al ar, not b) ∷ stack) h = refl
eq_loop-all_same leaf_eq (suc fuel) ((or al ar, primitive b) ∷ stack) h = refl
eq_loop-all_same leaf_eq (suc fuel) ((not a, and bl br) ∷ stack) h = refl
eq_loop-all_same leaf_eq (suc fuel) ((not a, or bl br) ∷ stack) h = refl
eq_loop-all_same leaf_eq (suc fuel) ((not a, primitive b) ∷ stack) h = refl
eq_loop-all_same leaf_eq (suc fuel) ((primitive a, and bl br) ∷ stack) h = refl
eq_loop-all_same leaf_eq (suc fuel) ((primitive a, or bl br) ∷ stack) h = refl
eq_loop-all_same leaf_eq (suc fuel) ((primitive a, not b) ∷ stack) h = refl

module _ (leaf_eq : Primitive → Primitive → Bool)
    (decides : (a b : Primitive) → (leaf_eq a b ≡ true) ↔ (a ≡ b)) where
  same_refl : (e : Expr) → same leaf_eq e e ≡ true
  unfolding same
  same_refl (and l r) = rw (same_refl l, same_refl r) refl
  same_refl (or l r) = rw (same_refl l, same_refl r) refl
  same_refl (not e) = same_refl e
  same_refl (primitive p) = (decides p p).1 refl

  same-eq : (a b : Expr) → same leaf_eq a b ≡ true → a ≡ b
  unfolding same
  same-eq (and al ar) (and bl br) h =
      let (p, q) = and-true _ _ h in ap₂ and (same-eq al bl p) (same-eq ar br q)
  same-eq (or al ar) (or bl br) h =
      let (p, q) = and-true _ _ h in ap₂ or (same-eq al bl p) (same-eq ar br q)
  same-eq (not a) (not b) h = ap not (same-eq a b h)
  same-eq (primitive a) (primitive b) h = ap primitive ((decides a b).0 h)
  same-eq _ _ h = absurd (ground arith)

  -- If the equality of the leaves decides equality, the loop of `PartialEq::eq` always returns, and
  -- returns true exactly for equal trees.
  pub expr_eq_iff :
      (a b : Expr)
      → (answer : Bool) × (expr_eq leaf_eq a b ≡ some answer) × ((answer ≡ true) ↔ (a ≡ b))
  unfolding expr_eq all_same
  expr_eq_iff a b = (
    same leaf_eq a b,
    eq_loop-all_same leaf_eq (size a) ((a, b) ∷ []) (unfold stack_size in omega arith)
        ∙ ap some (ground arith),
    (same-eq a b, λ e. subst (λ c. same leaf_eq a c ≡ true) e (same_refl a)),
  )
