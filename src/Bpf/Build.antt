-- ===== src/Bpf/Build.antt =====
-- pktbaffle/src/bpf.rs: the constructors of `impl Insn`.
use pktbaffle.Prelude.{ℕ, bit_or}
use pktbaffle.Bpf.{
  Insn, bpf_ld, bpf_ldx, bpf_st, bpf_alu, bpf_jmp, bpf_ret, bpf_misc, bpf_w, bpf_h, bpf_b, bpf_imm,
  bpf_abs, bpf_ind, bpf_mem, bpf_msh, bpf_add, bpf_sub, bpf_mul, bpf_div, bpf_or, bpf_and, bpf_lsh,
  bpf_rsh, bpf_xor, bpf_ja, bpf_jeq, bpf_jgt, bpf_jge, bpf_jset, bpf_k, bpf_x, bpf_tax,
}

unfoldable pub ldw_abs : ℕ → Insn
ldw_abs k = record { code = bit_or (bit_or bpf_ld bpf_w) bpf_abs; jt = 0; jf = 0; k = k }

unfoldable pub ldh_abs : ℕ → Insn
ldh_abs k = record { code = bit_or (bit_or bpf_ld bpf_h) bpf_abs; jt = 0; jf = 0; k = k }

unfoldable pub ldb_abs : ℕ → Insn
ldb_abs k = record { code = bit_or (bit_or bpf_ld bpf_b) bpf_abs; jt = 0; jf = 0; k = k }

unfoldable pub ldw_ind : ℕ → Insn
ldw_ind k = record { code = bit_or (bit_or bpf_ld bpf_w) bpf_ind; jt = 0; jf = 0; k = k }

unfoldable pub ldb_ind : ℕ → Insn
ldb_ind k = record { code = bit_or (bit_or bpf_ld bpf_b) bpf_ind; jt = 0; jf = 0; k = k }

unfoldable pub ldh_ind : ℕ → Insn
ldh_ind k = record { code = bit_or (bit_or bpf_ld bpf_h) bpf_ind; jt = 0; jf = 0; k = k }

unfoldable pub ldx_msh : ℕ → Insn
ldx_msh k = record { code = bit_or (bit_or bpf_ldx bpf_b) bpf_msh; jt = 0; jf = 0; k = k }

unfoldable pub ldx_imm : ℕ → Insn
ldx_imm k = record { code = bit_or (bit_or bpf_ldx bpf_w) bpf_imm; jt = 0; jf = 0; k = k }

unfoldable pub ld_imm : ℕ → Insn
ld_imm k = record { code = bit_or bpf_ld bpf_imm; jt = 0; jf = 0; k = k }

unfoldable pub and_k : ℕ → Insn
and_k k = record { code = bit_or (bit_or bpf_alu bpf_and) bpf_k; jt = 0; jf = 0; k = k }

unfoldable pub or_k : ℕ → Insn
or_k k = record { code = bit_or (bit_or bpf_alu bpf_or) bpf_k; jt = 0; jf = 0; k = k }

unfoldable pub rsh_k : ℕ → Insn
rsh_k k = record { code = bit_or (bit_or bpf_alu bpf_rsh) bpf_k; jt = 0; jf = 0; k = k }

unfoldable pub add_k : ℕ → Insn
add_k k = record { code = bit_or (bit_or bpf_alu bpf_add) bpf_k; jt = 0; jf = 0; k = k }

unfoldable pub sub_k : ℕ → Insn
sub_k k = record { code = bit_or (bit_or bpf_alu bpf_sub) bpf_k; jt = 0; jf = 0; k = k }

unfoldable pub mul_k : ℕ → Insn
mul_k k = record { code = bit_or (bit_or bpf_alu bpf_mul) bpf_k; jt = 0; jf = 0; k = k }

unfoldable pub div_k : ℕ → Insn
div_k k = record { code = bit_or (bit_or bpf_alu bpf_div) bpf_k; jt = 0; jf = 0; k = k }

unfoldable pub lsh_k : ℕ → Insn
lsh_k k = record { code = bit_or (bit_or bpf_alu bpf_lsh) bpf_k; jt = 0; jf = 0; k = k }

unfoldable pub xor_k : ℕ → Insn
xor_k k = record { code = bit_or (bit_or bpf_alu bpf_xor) bpf_k; jt = 0; jf = 0; k = k }

unfoldable pub jeq_k : ℕ → ℕ → ℕ → Insn
jeq_k k jt jf = record { code = bit_or (bit_or bpf_jmp bpf_jeq) bpf_k; jt = jt; jf = jf; k = k }

unfoldable pub jgt_k : ℕ → ℕ → ℕ → Insn
jgt_k k jt jf = record { code = bit_or (bit_or bpf_jmp bpf_jgt) bpf_k; jt = jt; jf = jf; k = k }

unfoldable pub jge_k : ℕ → ℕ → ℕ → Insn
jge_k k jt jf = record { code = bit_or (bit_or bpf_jmp bpf_jge) bpf_k; jt = jt; jf = jf; k = k }

unfoldable pub jset_k : ℕ → ℕ → ℕ → Insn
jset_k k jt jf = record { code = bit_or (bit_or bpf_jmp bpf_jset) bpf_k; jt = jt; jf = jf; k = k }

unfoldable pub jeq_x : ℕ → ℕ → Insn
jeq_x jt jf = record { code = bit_or (bit_or bpf_jmp bpf_jeq) bpf_x; jt = jt; jf = jf; k = 0 }

unfoldable pub jgt_x : ℕ → ℕ → Insn
jgt_x jt jf = record { code = bit_or (bit_or bpf_jmp bpf_jgt) bpf_x; jt = jt; jf = jf; k = 0 }

unfoldable pub jge_x : ℕ → ℕ → Insn
jge_x jt jf = record { code = bit_or (bit_or bpf_jmp bpf_jge) bpf_x; jt = jt; jf = jf; k = 0 }

unfoldable pub jset_x : ℕ → ℕ → Insn
jset_x jt jf = record { code = bit_or (bit_or bpf_jmp bpf_jset) bpf_x; jt = jt; jf = jf; k = 0 }

unfoldable pub tax : Insn
tax = record { code = bit_or bpf_misc bpf_tax; jt = 0; jf = 0; k = 0 }

unfoldable pub st : ℕ → Insn
st k = record { code = bpf_st; jt = 0; jf = 0; k = k }

unfoldable pub ldx_mem : ℕ → Insn
ldx_mem k = record { code = bit_or (bit_or bpf_ldx bpf_w) bpf_mem; jt = 0; jf = 0; k = k }

unfoldable pub ja : ℕ → Insn
ja offset = record { code = bit_or bpf_jmp bpf_ja; jt = 0; jf = 0; k = offset }

unfoldable pub ret_k : ℕ → Insn
ret_k k = record { code = bit_or bpf_ret bpf_k; jt = 0; jf = 0; k = k }
