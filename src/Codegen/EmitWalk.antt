-- ===== src/Codegen/EmitWalk.antt =====
-- pktbaffle/src/codegen.rs: the explicit work stack of `emit_expr` emits what the recursion over the
-- expression emits.
use pktbaffle.Prelude.{ℕ, zero, suc, ◌+◌, ◌≡◌, refl, sym, ap, ◌∙◌, fun_ext, List, [], ◌∷◌, arith}
use pktbaffle.Ast.{Expr}
use pktbaffle.Codegen.State.{Codegen, Patch, M, Result, ok, err, ◌>>=◌, pure, get}
use pktbaffle.Codegen.Emit.{
  emit_primitive, is_vlan, emit_or_hoist, step_and_right, step_and_done, step_or_right,
  step_or_done, step_not_done, Work, emit, and_right, and_done, or_right, or_done, not_done, Done,
  emit_loop, emit_turns, emit_expr, first_done,
}

-- The emission by recursion over the expression.
unfoldable pub emit_rec : Expr → M Done
emit_rec (Expr.primitive p) = do q ← emit_primitive p; pure (q, is_vlan p)
emit_rec (Expr.and l r) = do
  a ← emit_rec l
  s ← step_and_right a
  b ← emit_rec r
  step_and_done s.0 s.1 b
emit_rec (Expr.or l r) = do
  h ← emit_or_hoist l r
  cg ← get
  a ← emit_rec l
  s ← step_or_right cg.facts cg.x_writes a
  b ← emit_rec r
  step_or_done a.0.success s.1 s.0 h b
emit_rec (Expr.not e) = do cg ← get; a ← emit_rec e; step_not_done cg.facts cg.x_writes a

pub bind_assoc :
    {A B C : Type 0} (m : M A) (f : A → M B) (g : B → M C)
    → (m >>= f >>= g) ≡ (m >>= λ a. f a >>= g)
bind_assoc {A} {B} {C} m f g = fun_ext (λ cg. flat (m cg))
  where
    flat :
        (r : Result (A × Codegen))
        → ◌≡◌ {A = Result (C × Codegen)}
            (elim (elim r as (λ _. Result (B × Codegen)) [
              | ok (a, cg') ↦ f a cg'
              | err e ↦ err e
            ]) [ ok (b, cg') ↦ g b cg' | err e ↦ err e ])
            (elim r [ ok (a, cg') ↦ (f a >>= g) cg' | err e ↦ err e ])
    flat (ok (a, cg')) = refl
    flat (err e) = refl

pub bind_congr :
    {A B : Type 0} (m : M A) {f g : A → M B} → ((a : A) → f a ≡ g a) → (m >>= f) ≡ (m >>= g)
bind_congr m p = λ i. m >>= λ a. p a i

pub bind_assoc3 :
    {A B C D E : Type 0} (m : M A) (f : A → M B) (g : A → B → M C) (h : A → B → C → M D)
    (k : D → M E)
    → (m >>= (λ a. f a >>= (λ b. g a b >>= h a b)) >>= k)
      ≡ (m >>= λ a. f a >>= λ b. g a b >>= λ c. h a b c >>= k)
bind_assoc3 m f g h k =
    bind_assoc m (λ a. f a >>= (λ b. g a b >>= h a b)) k
    ∙ bind_congr m (λ a.
      bind_assoc (f a) (λ b. g a b >>= h a b) k
      ∙ bind_congr (f a) (λ b. bind_assoc (g a b) (h a b) k))

emit_loop-emit :
    (e : Expr) (t f : ℕ) (work : List Work) (done : List Done)
    → t ≡ emit_turns e + f
    → emit_loop t (emit e ∷ work) done ≡ (emit_rec e >>= λ d. emit_loop f work (d ∷ done))
unfolding emit_loop emit_turns emit_rec
emit_loop-emit (Expr.primitive p) zero f work done q = absurd (omega arith)
emit_loop-emit (Expr.primitive p) (suc t) f work done q =
    ap (λ u. emit_primitive p >>= λ r. emit_loop u work ((r, is_vlan p) ∷ done)) (omega arith)
    ∙ sym (
        bind_assoc (emit_primitive p) (λ r. pure (r, is_vlan p)) (λ d. emit_loop f work (d ∷ done)))
emit_loop-emit (Expr.and l r) zero f work done q = absurd (omega arith)
emit_loop-emit (Expr.and l r) (suc t) f work done q =
    emit_loop-emit l t (suc (emit_turns r + suc f)) (and_right r ∷ work) done (omega arith)
    ∙ bind_congr (emit_rec l) (λ a.
      bind_congr (step_and_right a)
        (λ s. emit_loop-emit r (emit_turns r + suc f) (suc f) (and_done s.0 s.1 ∷ work) done refl))
    ∙ sym (
        bind_assoc3 (emit_rec l) step_and_right (λ a s. emit_rec r)
          (λ a s b. step_and_done s.0 s.1 b) (λ d. emit_loop f work (d ∷ done)))
emit_loop-emit (Expr.or l r) zero f work done q = absurd (omega arith)
emit_loop-emit (Expr.or l r) (suc t) f work done q =
    bind_congr (emit_or_hoist l r) (λ h. fun_ext (λ cg.
      ap (λ m. m cg)
        (emit_loop-emit l t (suc (emit_turns r + suc f)) (or_right r h cg.facts cg.x_writes ∷ work)
            done (omega arith)
          ∙ bind_congr (emit_rec l) (λ a. bind_congr (step_or_right cg.facts cg.x_writes a) (λ s.
            emit_loop-emit r (emit_turns r + suc f) (suc f) (or_done a.0.success s.1 s.0 h ∷ work)
              done refl))
          ∙ sym (assoc h cg))))
    ∙ sym (
        bind_assoc (emit_or_hoist l r) (λ h. get >>= operands h) (λ d. emit_loop f work (d ∷ done)))
  where
    operands : List Patch → Codegen → M Done
    operands h cg = emit_rec l >>= λ a. step_or_right cg.facts cg.x_writes a >>= λ s.
        emit_rec r >>= λ b. step_or_done a.0.success s.1 s.0 h b

    assoc :
        (h : List Patch) (cg : Codegen)
        → (operands h cg >>= (λ d. emit_loop f work (d ∷ done))) ≡ (
            emit_rec l >>= λ a. step_or_right cg.facts cg.x_writes a >>= λ s. emit_rec r >>= λ b.
            step_or_done a.0.success s.1 s.0 h b >>= λ d. emit_loop f work (d ∷ done))
    assoc h cg =
        bind_assoc3 (emit_rec l) (step_or_right cg.facts cg.x_writes) (λ a s. emit_rec r)
          (λ a s b. step_or_done a.0.success s.1 s.0 h b) (λ d. emit_loop f work (d ∷ done))
emit_loop-emit (Expr.not e) zero f work done q = absurd (omega arith)
emit_loop-emit (Expr.not e) (suc t) f work done q = fun_ext (λ cg.
    ap (λ m. m cg)
      (emit_loop-emit e t (suc f) (not_done cg.facts cg.x_writes ∷ work) done (omega arith)
        ∙ sym (
            bind_assoc (emit_rec e) (step_not_done cg.facts cg.x_writes)
              (λ d. emit_loop f work (d ∷ done)))))

-- The loop emits, from every state, what the recursion over the expression emits, its errors
-- included: it never runs out of turns or of operands.
pub emit_expr_lem : (e : Expr) → emit_expr e ≡ (emit_rec e >>= λ d. pure d.0)
unfolding emit_expr emit_loop
emit_expr_lem e =
    ap (λ m. m >>= first_done) (emit_loop-emit e (emit_turns e) 0 [] [] (omega arith))
    ∙ bind_assoc (emit_rec e) (λ d. emit_loop 0 [] (d ∷ [])) first_done
