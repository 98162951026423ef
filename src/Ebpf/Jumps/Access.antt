-- ===== src/Ebpf/Jumps/Access.antt =====
-- pktbaffle/src/ebpf_codegen.rs: comparisons, lengths and byte access keep the invariant.
use pktbaffle.Prelude.{
  ℕ, ◌==◌, refl, arith, List, [], ◌∷◌, length, Bool, true, false, if◌then◌else◌,
}
use pktbaffle.Ast.{
  CmpOp, CmpRhs, const, load, ArithOp, ByteAccess, AccessSize, byte, half, word, Layer, raw, trans,
}
use pktbaffle.Ebpf.{insn, r4}
use pktbaffle.Ebpf.Build.{
  mov64_reg, and32_imm, rsh32_imm, jne_imm, jeq_imm, jlt_imm, jle_imm, jgt_imm, jge_imm, jset_imm,
  ja, ldx_b, or32_imm, xor32_imm, add32_imm, sub32_imm, mul32_imm, div32_imm, lsh32_imm,
}
use pktbaffle.Ebpf.State.{slot, ok, err, here, division_by_zero}
use pktbaffle.Ebpf.Primitive.{
  bit_test, emit_cmp, emit_len, ebpf_alu32, push_result, alu_ops, sized_load, absolute_access,
  transport_load, emit_trans_byte_access, access_on, access_rhs, emit_byte_access,
}
use pktbaffle.Ebpf.Jumps.{
  no_patch, before, PatchIn, Any, NatIn, BothBelow, Post, kept, failed, Keeps, bind-Post, push-Post,
  resolve-Post,
}
use pktbaffle.Ebpf.Jumps.Combine.{fails-BothBelow, extended-BothBelow}
use pktbaffle.Ebpf.Jumps.Load.{
  push_ldx_h_be-Post, push_ldx_w_be-Post, emit_load_byte-Post, emit_load_half-Post,
  emit_load_word-Post,
}
use pktbaffle.Ebpf.Jumps.Transport.{header_by_ihl-Post, transport_check-Post}

bit_test-Post : (k : ℕ) → Keeps BothBelow (bit_test k)
unfolding bit_test here jset_imm ja
bit_test-Post k cg v = bind-Post (push-Post _ _ v refl) (λ j _ v1 l1 a.
    bind-Post (push-Post _ _ v1 refl) (λ _ cg2 v2 l2 b.
      bind-Post (resolve-Post cg2 (slot j) (length cg2.insns) v2 (omega arith) (omega arith))
        (λ _ _ v3 l3 _. kept v3 (omega arith) (fails-BothBelow (before (omega arith) no_patch)))))

emit_cmp-Post : (op : CmpOp) (k : ℕ) → Keeps BothBelow (emit_cmp op k)
unfolding emit_cmp jne_imm jeq_imm jle_imm jlt_imm jge_imm jgt_imm
emit_cmp-Post CmpOp.eq k cg v =
    bind-Post (push-Post _ _ v refl)
      (λ _ _ w l b. kept w (omega arith) (fails-BothBelow (before b no_patch)))
emit_cmp-Post CmpOp.ne k cg v =
    bind-Post (push-Post _ _ v refl)
      (λ _ _ w l b. kept w (omega arith) (fails-BothBelow (before b no_patch)))
emit_cmp-Post CmpOp.gt k cg v =
    bind-Post (push-Post _ _ v refl)
      (λ _ _ w l b. kept w (omega arith) (fails-BothBelow (before b no_patch)))
emit_cmp-Post CmpOp.ge k cg v =
    bind-Post (push-Post _ _ v refl)
      (λ _ _ w l b. kept w (omega arith) (fails-BothBelow (before b no_patch)))
emit_cmp-Post CmpOp.lt k cg v =
    bind-Post (push-Post _ _ v refl)
      (λ _ _ w l b. kept w (omega arith) (fails-BothBelow (before b no_patch)))
emit_cmp-Post CmpOp.le k cg v =
    bind-Post (push-Post _ _ v refl)
      (λ _ _ w l b. kept w (omega arith) (fails-BothBelow (before b no_patch)))
emit_cmp-Post CmpOp.bit_and k cg v = bit_test-Post k cg v

pub emit_len-Post : (op : CmpOp) (k : ℕ) → Keeps BothBelow (emit_len op k)
unfolding emit_len mov64_reg insn
emit_len-Post op k cg v =
    bind-Post (push-Post _ _ v refl)
      (λ _ _ v1 l1 _. bind-Post (push-Post _ _ v1 refl) (λ _ _ v2 l2 _. emit_cmp-Post op k _ v2))

alu-Post : (op : ArithOp) (k : ℕ) → Keeps NatIn (push_result (ebpf_alu32 op r4 k))
unfolding ebpf_alu32 and32_imm or32_imm xor32_imm add32_imm sub32_imm mul32_imm div32_imm lsh32_imm
    rsh32_imm
alu-Post ArithOp.and k cg v = push-Post _ _ v refl
alu-Post ArithOp.or k cg v = push-Post _ _ v refl
alu-Post ArithOp.xor k cg v = push-Post _ _ v refl
alu-Post ArithOp.add k cg v = push-Post _ _ v refl
alu-Post ArithOp.sub k cg v = push-Post _ _ v refl
alu-Post ArithOp.mul k cg v = push-Post _ _ v refl
alu-Post ArithOp.div k cg v = divided (k == 0)
  where
    divided :
        (z : Bool)
        → Post NatIn
            (length cg.insns)
            (push_result (if z then err division_by_zero else ok (div32_imm r4 k)) cg)
    divided true = failed refl
    divided false = push-Post _ _ v refl
alu-Post ArithOp.modulo k cg v = failed refl
alu-Post ArithOp.shl k cg v = push-Post _ _ v refl
alu-Post ArithOp.shr k cg v = push-Post _ _ v refl

alu_ops-Post : (ops : List (ArithOp × ℕ)) → Keeps Any (alu_ops ops)
unfolding alu_ops
alu_ops-Post [] cg v = kept v (omega arith) (omega arith)
alu_ops-Post ((op, k) ∷ ops) cg v =
    bind-Post (alu-Post op k cg v) (λ _ _ v1 l1 _. alu_ops-Post ops _ v1)

sized_load-Post : (s : AccessSize) (off : ℕ) → Keeps PatchIn (sized_load s off)
unfolding sized_load
sized_load-Post byte off = emit_load_byte-Post off
sized_load-Post half off = emit_load_half-Post off
sized_load-Post word off = emit_load_word-Post off

absolute_access-Post : (ba : ByteAccess) (off k : ℕ) → Keeps BothBelow (absolute_access ba off k)
unfolding absolute_access
absolute_access-Post ba off k cg v = bind-Post (sized_load-Post ba.size off cg v) (λ _ _ v1 l1 a.
    bind-Post (alu_ops-Post ba.alu_ops _ v1) (λ _ _ v2 l2 _.
      bind-Post (emit_cmp-Post ba.op k _ v2) (λ _ _ v3 l3 p.
        kept v3 (omega arith)
          (record { successes = p.successes; failures = before (omega arith) p.failures }))))

transport_load-Post : (s : AccessSize) (off : ℕ) → Keeps Any (transport_load s off)
unfolding transport_load ldx_b
transport_load-Post byte off cg v =
    bind-Post (push-Post _ _ v refl) (λ _ _ v1 l1 _. kept v1 (omega arith) (omega arith))
transport_load-Post half off cg v = push_ldx_h_be-Post _ _ off cg v
transport_load-Post word off cg v = push_ldx_w_be-Post _ _ off cg v

emit_trans_byte_access-Post :
    (ba : ByteAccess) (k : ℕ) → Keeps BothBelow (emit_trans_byte_access ba k)
unfolding emit_trans_byte_access
emit_trans_byte_access-Post ba k cg v = bind-Post (header_by_ihl-Post _ cg v) (λ _ _ v1 l1 a.
    bind-Post (transport_check-Post _ _ v1) (λ _ _ v2 l2 b.
      bind-Post (transport_load-Post ba.size _ _ v2) (λ _ _ v3 l3 _.
        bind-Post (alu_ops-Post ba.alu_ops _ v3) (λ _ _ v4 l4 _.
          bind-Post (emit_cmp-Post ba.op k _ v4) (λ _ _ v5 l5 p. kept v5 (omega arith) (
            extended-BothBelow p (omega arith)
              (fails-BothBelow (before (omega arith) (before (omega arith) no_patch)))))))))

access_on-Post : (l : Layer) (ba : ByteAccess) (k : ℕ) → Keeps BothBelow (access_on l ba k)
unfolding access_on
access_on-Post raw ba k cg v = absolute_access-Post ba _ k cg v
access_on-Post Layer.net ba k cg v = absolute_access-Post ba _ k cg v
access_on-Post trans ba k cg v = emit_trans_byte_access-Post ba k cg v

access_rhs-Post : (rhs : CmpRhs) (ba : ByteAccess) → Keeps BothBelow (access_rhs rhs ba)
access_rhs-Post (const k) ba cg v = access_on-Post ba.layer ba k cg v
access_rhs-Post (load l) ba cg v = failed refl

pub emit_byte_access-Post : (ba : ByteAccess) → Keeps BothBelow (emit_byte_access ba)
unfolding emit_byte_access
emit_byte_access-Post ba = access_rhs-Post ba.rhs ba
