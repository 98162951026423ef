-- ===== src/Ebpf/Build.antt =====
-- pktbaffle/src/ebpf.rs: the constructors of `impl Insn`.
use pktbaffle.Prelude.{ℕ, bit_or}
use pktbaffle.Ebpf.{
  Insn, insn, bpf_add, bpf_alu, bpf_alu64, bpf_and, bpf_b, bpf_div, bpf_end, bpf_exit, bpf_h,
  bpf_ja, bpf_jeq, bpf_jge, bpf_jgt, bpf_jle, bpf_jlt, bpf_jmp, bpf_jne, bpf_jset, bpf_k, bpf_ldx,
  bpf_lsh, bpf_mem, bpf_mov, bpf_mul, bpf_or, bpf_rsh, bpf_sub, bpf_to_be, bpf_w, bpf_x, bpf_xor,
}

unfoldable pub mov64_reg : ℕ → ℕ → Insn
unfolding insn
mov64_reg dst src = insn (bit_or (bit_or bpf_alu64 bpf_mov) bpf_x) dst src 0 0

unfoldable pub mov64_imm : ℕ → ℕ → Insn
unfolding insn
mov64_imm dst imm = insn (bit_or (bit_or bpf_alu64 bpf_mov) bpf_k) dst 0 0 imm

unfoldable pub add64_reg : ℕ → ℕ → Insn
unfolding insn
add64_reg dst src = insn (bit_or (bit_or bpf_alu64 bpf_add) bpf_x) dst src 0 0

unfoldable pub add64_imm : ℕ → ℕ → Insn
unfolding insn
add64_imm dst imm = insn (bit_or (bit_or bpf_alu64 bpf_add) bpf_k) dst 0 0 imm

unfoldable pub and32_imm : ℕ → ℕ → Insn
unfolding insn
and32_imm dst imm = insn (bit_or (bit_or bpf_alu bpf_and) bpf_k) dst 0 0 imm

unfoldable pub or32_imm : ℕ → ℕ → Insn
unfolding insn
or32_imm dst imm = insn (bit_or (bit_or bpf_alu bpf_or) bpf_k) dst 0 0 imm

unfoldable pub xor32_imm : ℕ → ℕ → Insn
unfolding insn
xor32_imm dst imm = insn (bit_or (bit_or bpf_alu bpf_xor) bpf_k) dst 0 0 imm

unfoldable pub add32_imm : ℕ → ℕ → Insn
unfolding insn
add32_imm dst imm = insn (bit_or (bit_or bpf_alu bpf_add) bpf_k) dst 0 0 imm

unfoldable pub sub32_imm : ℕ → ℕ → Insn
unfolding insn
sub32_imm dst imm = insn (bit_or (bit_or bpf_alu bpf_sub) bpf_k) dst 0 0 imm

unfoldable pub mul32_imm : ℕ → ℕ → Insn
unfolding insn
mul32_imm dst imm = insn (bit_or (bit_or bpf_alu bpf_mul) bpf_k) dst 0 0 imm

unfoldable pub div32_imm : ℕ → ℕ → Insn
unfolding insn
div32_imm dst imm = insn (bit_or (bit_or bpf_alu bpf_div) bpf_k) dst 0 0 imm

unfoldable pub rsh32_imm : ℕ → ℕ → Insn
unfolding insn
rsh32_imm dst imm = insn (bit_or (bit_or bpf_alu bpf_rsh) bpf_k) dst 0 0 imm

unfoldable pub lsh32_imm : ℕ → ℕ → Insn
unfolding insn
lsh32_imm dst imm = insn (bit_or (bit_or bpf_alu bpf_lsh) bpf_k) dst 0 0 imm

unfoldable pub be16 : ℕ → Insn
unfolding insn
be16 dst = insn (bit_or (bit_or bpf_alu bpf_end) bpf_to_be) dst 0 0 16

unfoldable pub be32 : ℕ → Insn
unfolding insn
be32 dst = insn (bit_or (bit_or bpf_alu bpf_end) bpf_to_be) dst 0 0 32

unfoldable pub ldx_b : ℕ → ℕ → ℕ → Insn
unfolding insn
ldx_b dst src off = insn (bit_or (bit_or bpf_ldx bpf_mem) bpf_b) dst src off 0

unfoldable pub ldx_h : ℕ → ℕ → ℕ → Insn
unfolding insn
ldx_h dst src off = insn (bit_or (bit_or bpf_ldx bpf_mem) bpf_h) dst src off 0

unfoldable pub ldx_w : ℕ → ℕ → ℕ → Insn
unfolding insn
ldx_w dst src off = insn (bit_or (bit_or bpf_ldx bpf_mem) bpf_w) dst src off 0

unfoldable pub ja : ℕ → Insn
unfolding insn
ja off = insn (bit_or bpf_jmp bpf_ja) 0 0 off 0

unfoldable pub jeq_imm : ℕ → ℕ → ℕ → Insn
unfolding insn
jeq_imm dst imm off = insn (bit_or (bit_or bpf_jmp bpf_jeq) bpf_k) dst 0 off imm

unfoldable pub jne_imm : ℕ → ℕ → ℕ → Insn
unfolding insn
jne_imm dst imm off = insn (bit_or (bit_or bpf_jmp bpf_jne) bpf_k) dst 0 off imm

unfoldable pub jgt_imm : ℕ → ℕ → ℕ → Insn
unfolding insn
jgt_imm dst imm off = insn (bit_or (bit_or bpf_jmp bpf_jgt) bpf_k) dst 0 off imm

unfoldable pub jge_imm : ℕ → ℕ → ℕ → Insn
unfolding insn
jge_imm dst imm off = insn (bit_or (bit_or bpf_jmp bpf_jge) bpf_k) dst 0 off imm

unfoldable pub jlt_imm : ℕ → ℕ → ℕ → Insn
unfolding insn
jlt_imm dst imm off = insn (bit_or (bit_or bpf_jmp bpf_jlt) bpf_k) dst 0 off imm

unfoldable pub jle_imm : ℕ → ℕ → ℕ → Insn
unfolding insn
jle_imm dst imm off = insn (bit_or (bit_or bpf_jmp bpf_jle) bpf_k) dst 0 off imm

unfoldable pub jset_imm : ℕ → ℕ → ℕ → Insn
unfolding insn
jset_imm dst imm off = insn (bit_or (bit_or bpf_jmp bpf_jset) bpf_k) dst 0 off imm

unfoldable pub jgt_reg : ℕ → ℕ → ℕ → Insn
unfolding insn
jgt_reg dst src off = insn (bit_or (bit_or bpf_jmp bpf_jgt) bpf_x) dst src off 0

unfoldable pub exit : Insn
unfolding insn
exit = insn (bit_or bpf_jmp bpf_exit) 0 0 0 0
