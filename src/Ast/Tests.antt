-- ===== src/Ast/Tests.antt =====
-- pktbaffle/src/ast.rs: the comparison of expressions at concrete trees.
use pktbaffle.Prelude.{◌≡◌, ◌↔◌, some, none, true, false, Bool, refl}
use pktbaffle.Ast.{Primitive, Expr, dst, src, port, ip_broadcast}
use pktbaffle.Ast.Tree.{expr_eq, expr_eq_iff}
use native.Mathlib.Decide.{ℕ_discrete}
use pktbaffle.Prelude.{arith}

Primitive-discrete : Discrete Primitive
Primitive-discrete = hlevel ℕ_discrete

-- The derived equality of `Primitive`.
abbrev leaf_eq : Primitive → Primitive → Bool
leaf_eq a b = elim (Primitive-discrete a b) [ yes _ ↦ true | no _ ↦ false ]

leaf_eq_lem : (a b : Primitive) → (leaf_eq a b ≡ true) ↔ (a ≡ b)
leaf_eq_lem a b =
    elim (Primitive-discrete a b)
      as (λ d. (elim d as (λ _. Bool) [ yes _ ↦ true | no _ ↦ false ] ≡ true) ↔ (a ≡ b)) [
        | yes q ↦ (λ _. q, λ _. refl)
        | no n ↦ (λ h. absurd (ground arith), λ q. absurd (n q))
      ]

abbrev left : Expr
left = Expr.and (Expr.primitive ip_broadcast) (Expr.not (Expr.primitive (port 80 dst none)))

abbrev right : Expr
right = Expr.and (Expr.primitive ip_broadcast) (Expr.not (Expr.primitive (port 80 src none)))

expr_eq_iff_example :
    (answer : Bool) × (expr_eq leaf_eq left right ≡ some answer)
    × ((answer ≡ true) ↔ (left ≡ right))
expr_eq_iff_example = expr_eq_iff leaf_eq leaf_eq_lem left right
