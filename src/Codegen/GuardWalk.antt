-- ===== src/Codegen/GuardWalk.antt =====
-- pktbaffle/src/codegen.rs: the explicit stack of `required_guards` computes the recursion over the
-- expression.
use pktbaffle.Prelude.{ℕ, zero, suc, ◌+◌, ◌≡◌, refl, ap, ◌∙◌, some, none, List, [], ◌∷◌, arith}
use pktbaffle.Ast.{Expr}
use pktbaffle.Codegen.Guards.{
  GuardSet, no_guards, union, intersect, primitive_guards, WalkStep, visit, combine_and, combine_or,
  walk_guards, walk_turns, required_guards, top,
}

-- The guards by recursion over the expression.
unfoldable pub guards_of : Expr → GuardSet
guards_of (Expr.and l r) = union (guards_of l) (guards_of r)
guards_of (Expr.or l r) = intersect (guards_of l) (guards_of r)
guards_of (Expr.not e) = no_guards
guards_of (Expr.primitive p) = primitive_guards p

walk_guards-visit :
    (e : Expr) (t f : ℕ) (todo : List WalkStep) (done : List GuardSet)
    → t ≡ walk_turns e + f
    → walk_guards t (visit e ∷ todo) done ≡ walk_guards f todo (guards_of e ∷ done)
unfolding walk_guards walk_turns guards_of
walk_guards-visit (Expr.and l r) zero f todo done q = absurd (omega arith)
walk_guards-visit (Expr.and l r) (suc t) f todo done q =
    walk_guards-visit l t (walk_turns r + suc f) (visit r ∷ combine_and ∷ todo) done (omega arith)
    ∙ walk_guards-visit r (walk_turns r + suc f) (suc f) (combine_and ∷ todo) (guards_of l ∷ done)
        refl
walk_guards-visit (Expr.or l r) zero f todo done q = absurd (omega arith)
walk_guards-visit (Expr.or l r) (suc t) f todo done q =
    walk_guards-visit l t (walk_turns r + suc f) (visit r ∷ combine_or ∷ todo) done (omega arith)
    ∙ walk_guards-visit r (walk_turns r + suc f) (suc f) (combine_or ∷ todo) (guards_of l ∷ done)
        refl
walk_guards-visit (Expr.not e) zero f todo done q = absurd (omega arith)
walk_guards-visit (Expr.not e) (suc t) f todo done q =
    ap (λ u. walk_guards u todo (no_guards ∷ done)) (omega arith)
walk_guards-visit (Expr.primitive p) zero f todo done q = absurd (omega arith)
walk_guards-visit (Expr.primitive p) (suc t) f todo done q =
    ap (λ u. walk_guards u todo (primitive_guards p ∷ done)) (omega arith)

-- The walk ends with one result, that of the recursion over the expression: it never runs out of turns
-- or of operands.
pub required_guards_lem : (e : Expr) → required_guards e ≡ some (guards_of e)
unfolding required_guards
required_guards_lem e = ap (λ r. elim r [ none ↦ none | some done ↦ top done ]) walked
  where
    walked : walk_guards (walk_turns e) (visit e ∷ []) [] ≡ some (guards_of e ∷ [])
    walked = walk_guards-visit e (walk_turns e) 0 [] [] (omega arith) ∙ (unfold walk_guards in refl)
