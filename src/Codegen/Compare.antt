-- ===== src/Codegen/Compare.antt =====
-- pktbaffle/src/codegen.rs: the comparisons of `emit_cmp` and `emit_cmp_x`, run by the interpreter.
use pktbaffle.Prelude.{ℕ, Bool, not, ◌==◌, ◌≡◌, refl, Option, some, ltb, leb, bit_and, ◌>>=◌, arith}
use pktbaffle.Prelude.Bits.{bit_and_comm}
use pktbaffle.Bpf.{Insn}
use pktbaffle.Bpf.Build.{jeq_k, jgt_k, jge_k, jset_k, jeq_x, jgt_x, jge_x, jset_x}
use pktbaffle.Ast.{CmpOp, eq, ne, lt, le, gt, ge}
use pktbaffle.Vm.{Regs, taken, uses_x}
use pktbaffle.Codegen.Access.{PatchField, cmp_insn, cmp_x_insn}

-- What the operator of a filter means, on its two sides.
pub holds : CmpOp → ℕ → ℕ → Bool
holds eq a b = a == b
holds ne a b = not (a == b)
holds gt a b = ltb b a
holds ge a b = leb b a
holds lt a b = ltb a b
holds le a b = leb a b
holds CmpOp.bit_and a b = not (bit_and a b == 0)

-- Whether the jump leaves by the field that is not patched to the failure.
abbrev pub passes : Insn × PatchField → Regs → Option Bool
passes (i, PatchField.jt) s = taken i s >>= λ t. some (not t)
passes (i, PatchField.jf) s = taken i s

passes-cmp_insn : (op : CmpOp) (k : ℕ) (s : Regs) → passes (cmp_insn op k) s ≡ some (holds op s.a k)
unfolding cmp_insn taken uses_x holds jeq_k jgt_k jge_k jset_k
passes-cmp_insn eq k s = refl
passes-cmp_insn ne k s = refl
passes-cmp_insn gt k s = refl
passes-cmp_insn ge k s = refl
passes-cmp_insn lt k s = ground arith
passes-cmp_insn le k s = ground arith
passes-cmp_insn CmpOp.bit_and k s = refl

passes-cmp_x_insn : (op : CmpOp) (s : Regs) → passes (cmp_x_insn op) s ≡ some (holds op s.x s.a)
unfolding cmp_x_insn taken uses_x holds jeq_x jgt_x jge_x jset_x
passes-cmp_x_insn eq s = ground arith
passes-cmp_x_insn ne s = ground arith
passes-cmp_x_insn gt s = ground arith
passes-cmp_x_insn ge s = ground arith
passes-cmp_x_insn lt s = ground arith
passes-cmp_x_insn le s = ground arith
passes-cmp_x_insn CmpOp.bit_and s = ground (arith, bit_and_comm s.a s.x)

-- The jump that the compiler emits for a comparison leaves by the field that is not patched to the
-- failure exactly if the comparison holds: of A with the constant, and of X, where the left side was
-- put, with A.
pub passes-holds :
    (op : CmpOp) (k : ℕ) (s : Regs)
    → (passes (cmp_insn op k) s ≡ some (holds op s.a k))
      × (passes (cmp_x_insn op) s ≡ some (holds op s.x s.a))
passes-holds op k s = (passes-cmp_insn op k s, passes-cmp_x_insn op s)
