-- ===== src/Codegen/Access.antt =====
-- pktbaffle/src/codegen.rs: length predicates and raw byte access.
use pktbaffle.Prelude.{
  ℕ, ◌+◌, ◌%◌, ◌^◌, List, [], ◌∷◌, Bool, true, false, ◌||◌, not, ◌==◌, if◌then◌else◌, bit_or,
}
use pktbaffle.Bpf.{Insn, bpf_ld, bpf_len}
use pktbaffle.Bpf.Build.{
  ldb_abs, ldh_abs, ldw_abs, ldb_ind, ldh_ind, ldw_ind, ldx_msh, ldx_mem, st, tax, and_k, or_k,
  xor_k, add_k, sub_k, mul_k, div_k, lsh_k, rsh_k, jeq_k, jgt_k, jge_k, jset_k, jeq_x, jgt_x, jge_x,
  jset_x,
}
use pktbaffle.Ast.{
  ArithOp, CmpOp, eq, ne, lt, le, gt, ge, AccessSize, byte, half, word, Layer, raw, net, trans,
  ByteLoad, CmpRhs, const, load, ByteAccess,
}
use pktbaffle.Codegen.State.{
  Patch, Patches, Codegen, M, ◌>>=◌, ◌>>◌, pure, throw, get, push, net_offset,
  byte_access_on_raw_ip, division_by_zero, modulo_unsupported,
}
use pktbaffle.Codegen.Check.{fails}
use pktbaffle.Codegen.Link.{is_raw_ip}

-- Which field of the comparison leads to failure.
pub data PatchField : Type 0 where
  jt jf : PatchField

abbrev pub patch_of : PatchField → ℕ → Patch
patch_of jt idx = Patch.jt idx
patch_of jf idx = Patch.jf idx

-- The comparison and its failing field, against a constant and against X.
unfoldable pub cmp_insn : CmpOp → ℕ → Insn × PatchField
cmp_insn eq value = (jeq_k value 0 0xff, PatchField.jf)
cmp_insn ne value = (jeq_k value 0xff 0, PatchField.jt)
cmp_insn gt value = (jgt_k value 0 0xff, PatchField.jf)
cmp_insn ge value = (jge_k value 0 0xff, PatchField.jf)
cmp_insn lt value = (jge_k value 0xff 0, PatchField.jt)
cmp_insn le value = (jgt_k value 0xff 0, PatchField.jt)
cmp_insn CmpOp.bit_and value = (jset_k value 0 0xff, PatchField.jf)

unfoldable pub cmp_x_insn : CmpOp → Insn × PatchField
cmp_x_insn eq = (jeq_x 0 0xff, PatchField.jf)
cmp_x_insn ne = (jeq_x 0xff 0, PatchField.jt)
cmp_x_insn lt = (jgt_x 0 0xff, PatchField.jf)
cmp_x_insn le = (jge_x 0 0xff, PatchField.jf)
cmp_x_insn gt = (jge_x 0xff 0, PatchField.jt)
cmp_x_insn ge = (jgt_x 0xff 0, PatchField.jt)
cmp_x_insn CmpOp.bit_and = (jset_x 0 0xff, PatchField.jf)

unfoldable pub emit_cmp : CmpOp → ℕ → M Patches
emit_cmp op value = do
  idx ← push (cmp_insn op value).0
  pure (fails (patch_of (cmp_insn op value).1 idx ∷ []))

unfoldable pub emit_cmp_x : CmpOp → M Patches
emit_cmp_x op = do idx ← push (cmp_x_insn op).0; pure (fails (patch_of (cmp_x_insn op).1 idx ∷ []))

unfoldable pub emit_len : CmpOp → ℕ → M Patches
emit_len op value = do
  push (record { code = bit_or bpf_ld bpf_len; jt = 0; jf = 0; k = 0 })
  emit_cmp op value

unfoldable pub sized_insn : AccessSize → Bool → ℕ → Insn
sized_insn byte false off = ldb_abs off
sized_insn half false off = ldh_abs off
sized_insn word false off = ldw_abs off
sized_insn byte true off = ldb_ind off
sized_insn half true off = ldh_ind off
sized_insn word true off = ldw_ind off

unfoldable pub load_sized : ℕ → AccessSize → Bool → M ℕ
load_sized off size indirect = push (sized_insn size indirect off)

unfoldable pub emit_alu_op : ArithOp → ℕ → M ℕ
emit_alu_op ArithOp.and operand = push (and_k operand)
emit_alu_op ArithOp.or operand = push (or_k operand)
emit_alu_op ArithOp.xor operand = push (xor_k operand)
emit_alu_op ArithOp.add operand = push (add_k operand)
emit_alu_op ArithOp.sub operand = push (sub_k operand)
emit_alu_op ArithOp.mul operand = push (mul_k operand)
emit_alu_op ArithOp.div operand =
    if operand == 0 then throw division_by_zero else push (div_k operand)
emit_alu_op ArithOp.modulo operand = throw modulo_unsupported
emit_alu_op ArithOp.shl operand = push (lsh_k operand)
emit_alu_op ArithOp.shr operand = push (rsh_k operand)

unfoldable pub emit_alu_ops : List (ArithOp × ℕ) → M (Unit {0})
emit_alu_ops [] = pure tt
emit_alu_ops ((aop, operand) ∷ ops) = do emit_alu_op aop operand; emit_alu_ops ops

-- A sum of two `u32`s.
abbrev pub add_u32 : ℕ → ℕ → ℕ
add_u32 a b = (a + b) % 2 ^ 32

unfoldable pub load_layer : Layer → ℕ → AccessSize → M ℕ
load_layer raw off size = do
  cg ← get
  if is_raw_ip cg.link then throw byte_access_on_raw_ip else load_sized off size false
load_layer net off size = do cg ← get; load_sized (add_u32 (net_offset cg) off) size false
load_layer trans off size = do
  cg ← get
  push (ldx_msh (net_offset cg))
  load_sized (add_u32 (net_offset cg) off) size true

unfoldable pub emit_byte_access_const : ByteAccess → ℕ → M Patches
emit_byte_access_const ba value = do
  load_layer ba.layer ba.offset ba.size
  emit_alu_ops ba.alu_ops
  emit_cmp ba.op value

unfoldable pub layer_offset : Layer → ℕ → Codegen → ℕ
layer_offset raw off cg = off
layer_offset _ off cg = add_u32 (net_offset cg) off

abbrev pub is_trans : Layer → Bool
is_trans trans = true
is_trans _ = false

-- The left side of a comparison of two loads, in A.
unfoldable pub load_lhs : ByteAccess → M ℕ
load_lhs ba = do
  cg ← get
  if is_trans ba.layer
      then (do
        push (ldx_msh (net_offset cg))
        load_sized (add_u32 (net_offset cg) ba.offset) ba.size true)
      else load_sized (layer_offset ba.layer ba.offset cg) ba.size false

-- The right side; X holds the IHL already where the left side is a transport load.
unfoldable pub load_rhs : Bool → ByteLoad → M ℕ
load_rhs lhs_trans rhs = do
  cg ← get
  if not (is_trans rhs.layer)
      then load_sized (layer_offset rhs.layer rhs.offset cg) rhs.size false
      else if lhs_trans
      then load_sized (add_u32 (net_offset cg) rhs.offset) rhs.size true
      else (do
        push (ldx_msh (net_offset cg))
        load_sized (add_u32 (net_offset cg) rhs.offset) rhs.size true)

-- The left side is kept in M[0] across the load of X, or in X itself.
unfoldable pub compare_loads : ByteAccess → ByteLoad → M ℕ
compare_loads ba rhs =
    if is_trans ba.layer || is_trans rhs.layer
    then (do
      load_lhs ba
      emit_alu_ops ba.alu_ops
      push (st 0)
      load_rhs (is_trans ba.layer) rhs
      push (ldx_mem 0))
    else (do load_lhs ba; emit_alu_ops ba.alu_ops; push tax; load_rhs false rhs)

unfoldable pub emit_byte_access_load : ByteAccess → ByteLoad → M Patches
emit_byte_access_load ba rhs = do compare_loads ba rhs; emit_cmp_x ba.op

unfoldable pub access_by_rhs : ByteAccess → CmpRhs → M Patches
access_by_rhs ba (const value) = emit_byte_access_const ba value
access_by_rhs ba (load rhs) = emit_byte_access_load ba rhs

unfoldable pub emit_byte_access : ByteAccess → M Patches
emit_byte_access ba = access_by_rhs ba ba.rhs
