-- ===== src/Codegen/Sane/Access.antt =====
-- pktbaffle/src/codegen.rs: the length predicates and the byte accesses keep the invariant.
use pktbaffle.Prelude.{
  ℕ, Bool, true, false, not, ◌||◌, ◌==◌, ◌&&◌, ◌<◌, ◌^◌, ◌≡◌, refl, arith, List, [], ◌∷◌, ltb,
  bit_or,
}
use pktbaffle.Bpf.{bpf_ld, bpf_len}
use pktbaffle.Ast.{
  ArithOp, CmpOp, eq, ne, lt, le, gt, ge, AccessSize, byte, half, word, Layer, raw, net, trans,
  ByteLoad, CmpRhs, const, load, ByteAccess,
}
use pktbaffle.Codegen.State.{Codegen, net_offset}
use pktbaffle.Codegen.Link.{is_raw_ip}
use pktbaffle.Codegen.Sane.{
  IsGood, Keeps, kept, failed, bind-Post, if-Post, push-Post, net_offset-small,
}
use pktbaffle.Codegen.Sane.Build.{
  plain-IsGood, ldw_abs-IsGood, ldh_abs-IsGood, ldb_abs-IsGood, ldw_ind-IsGood, ldb_ind-IsGood,
  ldh_ind-IsGood, ldx_msh-IsGood, and_k-IsGood, or_k-IsGood, rsh_k-IsGood, add_k-IsGood,
  sub_k-IsGood, mul_k-IsGood, div_k-IsGood, lsh_k-IsGood, xor_k-IsGood, jeq_k_jf-IsGood,
  jeq_k_jt-IsGood, jgt_k_jf-IsGood, jgt_k_jt-IsGood, jge_k_jf-IsGood, jge_k_jt-IsGood,
  jset_k_jf-IsGood, jeq_x_jf-IsGood, jeq_x_jt-IsGood, jgt_x_jf-IsGood, jgt_x_jt-IsGood,
  jge_x_jf-IsGood, jge_x_jt-IsGood, jset_x_jf-IsGood, tax-IsGood, st-IsGood, ldx_mem-IsGood,
}
use pktbaffle.Codegen.Access.{
  cmp_insn, cmp_x_insn, emit_cmp, emit_cmp_x, emit_len, sized_insn, load_sized, emit_alu_op,
  emit_alu_ops, add_u32, load_layer, emit_byte_access_const, layer_offset, is_trans, load_lhs,
  load_rhs, compare_loads, emit_byte_access_load, access_by_rhs, emit_byte_access,
}

cmp_insn-IsGood : (op : CmpOp) (k : ℕ) → k < 2 ^ 32 → IsGood (cmp_insn op k).0
unfolding cmp_insn
cmp_insn-IsGood eq k h = jeq_k_jf-IsGood h
cmp_insn-IsGood ne k h = jeq_k_jt-IsGood h
cmp_insn-IsGood gt k h = jgt_k_jf-IsGood h
cmp_insn-IsGood ge k h = jge_k_jf-IsGood h
cmp_insn-IsGood lt k h = jge_k_jt-IsGood h
cmp_insn-IsGood le k h = jgt_k_jt-IsGood h
cmp_insn-IsGood CmpOp.bit_and k h = jset_k_jf-IsGood h

cmp_x_insn-IsGood : (op : CmpOp) → IsGood (cmp_x_insn op).0
unfolding cmp_x_insn
cmp_x_insn-IsGood eq = jeq_x_jf-IsGood
cmp_x_insn-IsGood ne = jeq_x_jt-IsGood
cmp_x_insn-IsGood lt = jgt_x_jf-IsGood
cmp_x_insn-IsGood le = jge_x_jf-IsGood
cmp_x_insn-IsGood gt = jge_x_jt-IsGood
cmp_x_insn-IsGood ge = jgt_x_jt-IsGood
cmp_x_insn-IsGood CmpOp.bit_and = jset_x_jf-IsGood

emit_cmp-Post : {d : ℕ} (op : CmpOp) (k : ℕ) → k < 2 ^ 32 → Keeps d (emit_cmp op k)
unfolding emit_cmp
emit_cmp-Post op k h cg v = bind-Post (push-Post v (cmp_insn-IsGood op k h)) (λ _ _ z. kept z)

emit_cmp_x-Post : {d : ℕ} (op : CmpOp) → Keeps d (emit_cmp_x op)
unfolding emit_cmp_x
emit_cmp_x-Post op cg v = bind-Post (push-Post v (cmp_x_insn-IsGood op)) (λ _ _ z. kept z)

pub emit_len-Post : {d : ℕ} (op : CmpOp) (k : ℕ) → k < 2 ^ 32 → Keeps d (emit_len op k)
unfolding emit_len
emit_len-Post op k h cg v =
    bind-Post (push-Post v (plain-IsGood (bit_or bpf_ld bpf_len) 0 0 0 refl refl (omega arith)))
      (λ _ cg' w. emit_cmp-Post op k h cg' w)

sized_insn-IsGood :
    (size : AccessSize) (indirect : Bool) (off : ℕ)
    → off < 2 ^ 32
    → IsGood (sized_insn size indirect off)
unfolding sized_insn
sized_insn-IsGood byte false off h = ldb_abs-IsGood h
sized_insn-IsGood half false off h = ldh_abs-IsGood h
sized_insn-IsGood word false off h = ldw_abs-IsGood h
sized_insn-IsGood byte true off h = ldb_ind-IsGood h
sized_insn-IsGood half true off h = ldh_ind-IsGood h
sized_insn-IsGood word true off h = ldw_ind-IsGood h

load_sized-Post :
    {d : ℕ} (off : ℕ) (size : AccessSize) (indirect : Bool)
    → off < 2 ^ 32
    → Keeps d (load_sized off size indirect)
unfolding load_sized
load_sized-Post off size indirect h cg v = push-Post v (sized_insn-IsGood size indirect off h)

emit_alu_op-Post : {d : ℕ} (op : ArithOp) (k : ℕ) → k < 2 ^ 32 → Keeps d (emit_alu_op op k)
unfolding emit_alu_op
emit_alu_op-Post ArithOp.and k h cg v = push-Post v (and_k-IsGood h)
emit_alu_op-Post ArithOp.or k h cg v = push-Post v (or_k-IsGood h)
emit_alu_op-Post ArithOp.xor k h cg v = push-Post v (xor_k-IsGood h)
emit_alu_op-Post ArithOp.add k h cg v = push-Post v (add_k-IsGood h)
emit_alu_op-Post ArithOp.sub k h cg v = push-Post v (sub_k-IsGood h)
emit_alu_op-Post ArithOp.mul k h cg v = push-Post v (mul_k-IsGood h)
emit_alu_op-Post ArithOp.div k h cg v =
    if-Post {cg = cg} (k == 0) _ _ failed (push-Post v (div_k-IsGood h))
emit_alu_op-Post ArithOp.modulo k h cg v = failed
emit_alu_op-Post ArithOp.shl k h cg v = push-Post v (lsh_k-IsGood h)
emit_alu_op-Post ArithOp.shr k h cg v = push-Post v (rsh_k-IsGood h)

abbrev pub fits_ops : List (ArithOp × ℕ) → Bool
fits_ops [] = true
fits_ops ((op, k) ∷ ops) = ltb k (2 ^ 32) && fits_ops ops

emit_alu_ops-Post :
    {d : ℕ} (ops : List (ArithOp × ℕ)) → fits_ops ops ≡ true → Keeps d (emit_alu_ops ops)
unfolding emit_alu_ops
emit_alu_ops-Post [] h cg v = kept v
emit_alu_ops-Post ((op, k) ∷ ops) h cg v =
    bind-Post (emit_alu_op-Post op k (ground arith) cg v)
      (λ _ cg' w. emit_alu_ops-Post ops (ground arith) cg' w)

load_layer-Post :
    {d : ℕ} (layer : Layer) (off : ℕ) (size : AccessSize)
    → off < 2 ^ 32
    → Keeps d (load_layer layer off size)
unfolding load_layer
load_layer-Post raw off size h cg v =
    if-Post {cg = cg} (is_raw_ip cg.link) _ _ failed (load_sized-Post off size false h cg v)
load_layer-Post net off size h cg v =
    load_sized-Post (add_u32 (net_offset cg) off) size false (omega arith) cg v
load_layer-Post trans off size h cg v =
    bind-Post (push-Post v (ldx_msh-IsGood (omega (arith, net_offset-small v))))
      (λ _ cg' w. load_sized-Post (add_u32 (net_offset cg) off) size true (omega arith) cg' w)

abbrev pub fits_rhs : CmpRhs → Bool
fits_rhs (const k) = ltb k (2 ^ 32)
fits_rhs (load r) = ltb r.offset (2 ^ 32)

abbrev pub fits_access : ByteAccess → Bool
fits_access b = ltb b.offset (2 ^ 32) && fits_ops b.alu_ops && fits_rhs b.rhs

layer_offset-small :
    (layer : Layer) (off : ℕ) (cg : Codegen) → off < 2 ^ 32 → layer_offset layer off cg < 2 ^ 32
unfolding layer_offset
layer_offset-small raw off cg h = h
layer_offset-small net off cg h = omega arith
layer_offset-small trans off cg h = omega arith

load_lhs-Post : {d : ℕ} (b : ByteAccess) → b.offset < 2 ^ 32 → Keeps d (load_lhs b)
unfolding load_lhs
load_lhs-Post b h cg v =
    if-Post {cg = cg} (is_trans b.layer) _ _
      (bind-Post (push-Post v (ldx_msh-IsGood (omega (arith, net_offset-small v)))) (λ _ cg' w.
        load_sized-Post (add_u32 (net_offset cg) b.offset) b.size true (omega arith) cg' w))
      (load_sized-Post (layer_offset b.layer b.offset cg) b.size false
        (layer_offset-small b.layer b.offset cg h) cg v)

load_rhs-Post : {d : ℕ} (lhs : Bool) (r : ByteLoad) → r.offset < 2 ^ 32 → Keeps d (load_rhs lhs r)
unfolding load_rhs
load_rhs-Post lhs r h cg v =
    if-Post {cg = cg} (not (is_trans r.layer)) _ _
      (load_sized-Post (layer_offset r.layer r.offset cg) r.size false
        (layer_offset-small r.layer r.offset cg h) cg v)
      (if-Post {cg = cg} lhs _ _
        (load_sized-Post (add_u32 (net_offset cg) r.offset) r.size true (omega arith) cg v)
        (bind-Post (push-Post v (ldx_msh-IsGood (omega (arith, net_offset-small v)))) (λ _ cg' w.
          load_sized-Post (add_u32 (net_offset cg) r.offset) r.size true (omega arith) cg' w)))

compare_loads-Post :
    {d : ℕ} (b : ByteAccess) (r : ByteLoad)
    → b.offset < 2 ^ 32
    → fits_ops b.alu_ops ≡ true
    → r.offset < 2 ^ 32
    → Keeps d (compare_loads b r)
unfolding compare_loads
compare_loads-Post b r h o k cg v =
    if-Post {cg = cg} (is_trans b.layer || is_trans r.layer) _ _
      (bind-Post (load_lhs-Post b h cg v) (λ _ c1 w1.
        bind-Post (emit_alu_ops-Post b.alu_ops o c1 w1) (λ _ _ w2.
          bind-Post (push-Post w2 (st-IsGood (omega arith))) (λ _ c3 w3.
            bind-Post (load_rhs-Post (is_trans b.layer) r k c3 w3)
              (λ _ _ w4. push-Post w4 (ldx_mem-IsGood (omega arith)))))))
      (bind-Post (load_lhs-Post b h cg v) (λ _ c1 w1.
        bind-Post (emit_alu_ops-Post b.alu_ops o c1 w1) (λ _ _ w2.
          bind-Post (push-Post w2 tax-IsGood) (λ _ c3 w3. load_rhs-Post false r k c3 w3))))

access_by_rhs-Post :
    {d : ℕ} (b : ByteAccess) (r : CmpRhs)
    → b.offset < 2 ^ 32
    → fits_ops b.alu_ops ≡ true
    → fits_rhs r ≡ true
    → Keeps d (access_by_rhs b r)
unfolding access_by_rhs emit_byte_access_const emit_byte_access_load
access_by_rhs-Post b (const k) h o q cg v =
    bind-Post (load_layer-Post b.layer b.offset b.size h cg v) (λ _ c1 w1.
      bind-Post (emit_alu_ops-Post b.alu_ops o c1 w1)
        (λ _ c2 w2. emit_cmp-Post b.op k (ground arith) c2 w2))
access_by_rhs-Post b (load r) h o q cg v =
    bind-Post (compare_loads-Post b r h o (ground arith) cg v)
      (λ _ c1 w1. emit_cmp_x-Post b.op c1 w1)

pub emit_byte_access-Post :
    {d : ℕ} (b : ByteAccess) → fits_access b ≡ true → Keeps d (emit_byte_access b)
unfolding emit_byte_access
emit_byte_access-Post b h = access_by_rhs-Post b b.rhs (ground arith) (ground arith) (ground arith)
