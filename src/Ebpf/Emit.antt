-- ===== src/Ebpf/Emit.antt =====
-- pktbaffle/src/ebpf_codegen.rs: `emit_expr` with its explicit work stack, and `compile`.
use pktbaffle.Prelude.{ℕ, zero, suc, ◌+◌, List, [], ◌∷◌, ◌++◌, ltb, length, if◌then◌else◌}
use pktbaffle.Ast.{Expr}
use pktbaffle.Codegen.Facts.{LinkType}
use pktbaffle.Ebpf.{r0, xdp_pass, xdp_drop}
use pktbaffle.Ebpf.Build.{ja, mov64_imm, exit}
use pktbaffle.Ebpf.Encode.{Program}
use pktbaffle.Ebpf.State.{
  Patch, slot, Patches, M, Result, ◌>>=◌, ◌>>◌, pure, throw, here, new, push, resolve_all, panicked,
  ok, err,
}
use pktbaffle.Ebpf.Load.{emit_prologue}
use pktbaffle.Ebpf.Primitive.{emit_primitive}

pub data Work : Type 0 where
  emit and_right or_right : Expr → Work
  and_done : (left_failure : List Patch) → Work
  or_done : (left_success : List Patch) (ja_idx : ℕ) → Work
  not_done : Work

-- The shorter list is appended to the longer.
unfoldable pub concat : List Patch → List Patch → List Patch
concat a b = if ltb (length a) (length b) then b ++ a else a ++ b

-- A jump over what follows, which the failures of the operand before it enter.
unfoldable pub jump_over : List Patch → M ℕ
jump_over failure = do ja_idx ← push (ja 0); start ← here; resolve_all failure start; pure ja_idx

unfoldable pub and_of : List Patch → Patches → Patches
and_of left_failure right = record {
  success = right.success;
  failure = concat left_failure right.failure;
}

unfoldable pub or_of : List Patch → ℕ → Patches → Patches
or_of left_success ja_idx right = record {
  success = concat (left_success ++ (slot ja_idx ∷ [])) right.success;
  failure = right.failure;
}

unfoldable pub not_of : Patches → ℕ → Patches
not_of inner ja_idx = record { success = []; failure = inner.success ++ (slot ja_idx ∷ []) }

-- `while let Some(step) = work.pop()`. An empty stack of operands is a failed `expect`.
unfoldable pub emit_loop : ℕ → List Work → List Patches → M (List Patches)
emit_loop fuel [] done = pure done
emit_loop zero (w ∷ work) done = throw panicked
emit_loop (suc fuel) (emit (Expr.primitive p) ∷ work) done = do
  q ← emit_primitive p
  emit_loop fuel work (q ∷ done)
emit_loop (suc fuel) (emit (Expr.and left right) ∷ work) done =
    emit_loop fuel (emit left ∷ and_right right ∷ work) done
emit_loop (suc fuel) (emit (Expr.or left right) ∷ work) done =
    emit_loop fuel (emit left ∷ or_right right ∷ work) done
emit_loop (suc fuel) (emit (Expr.not inner) ∷ work) done =
    emit_loop fuel (emit inner ∷ not_done ∷ work) done
emit_loop (suc fuel) (and_right right ∷ work) (l ∷ done) = do
  right_start ← here
  resolve_all l.success right_start
  emit_loop fuel (emit right ∷ and_done l.failure ∷ work) done
emit_loop (suc fuel) (and_done left_failure ∷ work) (r ∷ done) =
    emit_loop fuel work (and_of left_failure r ∷ done)
emit_loop (suc fuel) (or_right right ∷ work) (l ∷ done) = do
  ja_idx ← jump_over l.failure
  emit_loop fuel (emit right ∷ or_done l.success ja_idx ∷ work) done
emit_loop (suc fuel) (or_done left_success ja_idx ∷ work) (r ∷ done) =
    emit_loop fuel work (or_of left_success ja_idx r ∷ done)
emit_loop (suc fuel) (not_done ∷ work) (i ∷ done) = do
  ja_idx ← jump_over i.failure
  emit_loop fuel work (not_of i ja_idx ∷ done)
emit_loop (suc fuel) (w ∷ work) [] = throw panicked

-- The turns of the loop over an expression.
unfoldable pub emit_turns : Expr → ℕ
emit_turns (Expr.and l r) = 3 + emit_turns l + emit_turns r
emit_turns (Expr.or l r) = 3 + emit_turns l + emit_turns r
emit_turns (Expr.not e) = 2 + emit_turns e
emit_turns (Expr.primitive p) = 1

abbrev pub first_done : List Patches → M Patches
first_done [] = throw panicked
first_done (p ∷ _) = pure p

unfoldable pub emit_expr : Expr → M Patches
emit_expr e = do done ← emit_loop (emit_turns e) (emit e ∷ []) []; first_done done

-- A value in R0, and the end.
unfoldable pub return_with : ℕ → M (Unit {0})
return_with k = do push (mov64_imm r0 k); push exit; pure tt

unfoldable pub emit_program : Expr → M (Unit {0})
emit_program e = do
  emit_prologue
  patches ← emit_expr e
  accept_idx ← here
  return_with xdp_pass
  drop_idx ← here
  return_with xdp_drop
  resolve_all patches.success accept_idx
  resolve_all patches.failure drop_idx

unfoldable pub compile : Expr → LinkType → Result Program
compile e link = elim (emit_program e (new link)) [
  | ok (_, cg) ↦ ok (record { insns = cg.insns })
  | err x ↦ err x
]
