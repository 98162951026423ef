-- ===== src/Codegen/Sane/Build.antt =====
-- pktbaffle/src/codegen.rs: the instructions that the compiler emits.
use pktbaffle.Prelude.{
  ℕ, ◌<◌, ◌^◌, ◌≡◌, refl, Bool, true, not, ◌&&◌, ◌==◌, ltb, bit_and, bit_or, arith,
}
use pktbaffle.Bpf.{
  bpf_abs, bpf_add, bpf_alu, bpf_and, bpf_b, bpf_div, bpf_h, bpf_imm, bpf_ind, bpf_ja, bpf_jeq,
  bpf_jge, bpf_jgt, bpf_jmp, bpf_jset, bpf_k, bpf_ld, bpf_ldx, bpf_lsh, bpf_mem, bpf_misc, bpf_msh,
  bpf_mul, bpf_or, bpf_ret, bpf_rsh, bpf_st, bpf_sub, bpf_w, bpf_x, bpf_xor,
}
use pktbaffle.Bpf.Build.{
  ldw_abs, ldh_abs, ldb_abs, ldw_ind, ldb_ind, ldh_ind, ldx_msh, ldx_imm, and_k, or_k, rsh_k, add_k,
  sub_k, mul_k, div_k, lsh_k, xor_k, jeq_k, jgt_k, jge_k, jset_k, jeq_x, jgt_x, jge_x, jset_x, tax,
  st, ldx_mem, ja, ret_k,
}
use pktbaffle.Codegen.Sane.{IsGood}
use pktbaffle.Optimizer.{is_ja}

-- An opcode that is neither of class MISC nor a `ja`.
abbrev pub plain : ℕ → Bool
plain c =
    ltb c (2 ^ 16)
    && not (bit_and c 0x07 == bpf_misc)
    && not (bit_and c 0x07 == bpf_jmp && bit_and c 0xf0 == bpf_ja)

abbrev pub both_u8 : ℕ → ℕ → Bool
both_u8 a b = ltb a 256 && ltb b 256

pub plain-IsGood :
    (c a b k : ℕ)
    → plain c ≡ true
    → both_u8 a b ≡ true
    → k < 2 ^ 32
    → IsGood (record { code = c; jt = a; jf = b; k = k })
unfolding is_ja
plain-IsGood c a b k p q h = record {
  typed = record { code_u16 = ground arith; jt_u8 = ground arith; jf_u8 = ground arith; k_u32 = h };
  canonical = λ m n. absurd (ground arith);
  short_ja = λ j. absurd (ground arith);
}

pub ldw_abs-IsGood : {k : ℕ} → k < 2 ^ 32 → IsGood (ldw_abs k)
unfolding ldw_abs
ldw_abs-IsGood {k} h = plain-IsGood (bit_or (bit_or bpf_ld bpf_w) bpf_abs) 0 0 k refl refl h

pub ldh_abs-IsGood : {k : ℕ} → k < 2 ^ 32 → IsGood (ldh_abs k)
unfolding ldh_abs
ldh_abs-IsGood {k} h = plain-IsGood (bit_or (bit_or bpf_ld bpf_h) bpf_abs) 0 0 k refl refl h

pub ldb_abs-IsGood : {k : ℕ} → k < 2 ^ 32 → IsGood (ldb_abs k)
unfolding ldb_abs
ldb_abs-IsGood {k} h = plain-IsGood (bit_or (bit_or bpf_ld bpf_b) bpf_abs) 0 0 k refl refl h

pub ldw_ind-IsGood : {k : ℕ} → k < 2 ^ 32 → IsGood (ldw_ind k)
unfolding ldw_ind
ldw_ind-IsGood {k} h = plain-IsGood (bit_or (bit_or bpf_ld bpf_w) bpf_ind) 0 0 k refl refl h

pub ldb_ind-IsGood : {k : ℕ} → k < 2 ^ 32 → IsGood (ldb_ind k)
unfolding ldb_ind
ldb_ind-IsGood {k} h = plain-IsGood (bit_or (bit_or bpf_ld bpf_b) bpf_ind) 0 0 k refl refl h

pub ldh_ind-IsGood : {k : ℕ} → k < 2 ^ 32 → IsGood (ldh_ind k)
unfolding ldh_ind
ldh_ind-IsGood {k} h = plain-IsGood (bit_or (bit_or bpf_ld bpf_h) bpf_ind) 0 0 k refl refl h

pub ldx_msh-IsGood : {k : ℕ} → k < 2 ^ 32 → IsGood (ldx_msh k)
unfolding ldx_msh
ldx_msh-IsGood {k} h = plain-IsGood (bit_or (bit_or bpf_ldx bpf_b) bpf_msh) 0 0 k refl refl h

pub ldx_imm-IsGood : {k : ℕ} → k < 2 ^ 32 → IsGood (ldx_imm k)
unfolding ldx_imm
ldx_imm-IsGood {k} h = plain-IsGood (bit_or (bit_or bpf_ldx bpf_w) bpf_imm) 0 0 k refl refl h

pub and_k-IsGood : {k : ℕ} → k < 2 ^ 32 → IsGood (and_k k)
unfolding and_k
and_k-IsGood {k} h = plain-IsGood (bit_or (bit_or bpf_alu bpf_and) bpf_k) 0 0 k refl refl h

pub or_k-IsGood : {k : ℕ} → k < 2 ^ 32 → IsGood (or_k k)
unfolding or_k
or_k-IsGood {k} h = plain-IsGood (bit_or (bit_or bpf_alu bpf_or) bpf_k) 0 0 k refl refl h

pub rsh_k-IsGood : {k : ℕ} → k < 2 ^ 32 → IsGood (rsh_k k)
unfolding rsh_k
rsh_k-IsGood {k} h = plain-IsGood (bit_or (bit_or bpf_alu bpf_rsh) bpf_k) 0 0 k refl refl h

pub add_k-IsGood : {k : ℕ} → k < 2 ^ 32 → IsGood (add_k k)
unfolding add_k
add_k-IsGood {k} h = plain-IsGood (bit_or (bit_or bpf_alu bpf_add) bpf_k) 0 0 k refl refl h

pub sub_k-IsGood : {k : ℕ} → k < 2 ^ 32 → IsGood (sub_k k)
unfolding sub_k
sub_k-IsGood {k} h = plain-IsGood (bit_or (bit_or bpf_alu bpf_sub) bpf_k) 0 0 k refl refl h

pub mul_k-IsGood : {k : ℕ} → k < 2 ^ 32 → IsGood (mul_k k)
unfolding mul_k
mul_k-IsGood {k} h = plain-IsGood (bit_or (bit_or bpf_alu bpf_mul) bpf_k) 0 0 k refl refl h

pub div_k-IsGood : {k : ℕ} → k < 2 ^ 32 → IsGood (div_k k)
unfolding div_k
div_k-IsGood {k} h = plain-IsGood (bit_or (bit_or bpf_alu bpf_div) bpf_k) 0 0 k refl refl h

pub lsh_k-IsGood : {k : ℕ} → k < 2 ^ 32 → IsGood (lsh_k k)
unfolding lsh_k
lsh_k-IsGood {k} h = plain-IsGood (bit_or (bit_or bpf_alu bpf_lsh) bpf_k) 0 0 k refl refl h

pub xor_k-IsGood : {k : ℕ} → k < 2 ^ 32 → IsGood (xor_k k)
unfolding xor_k
xor_k-IsGood {k} h = plain-IsGood (bit_or (bit_or bpf_alu bpf_xor) bpf_k) 0 0 k refl refl h

pub jeq_k_jf-IsGood : {k : ℕ} → k < 2 ^ 32 → IsGood (jeq_k k 0 0xff)
unfolding jeq_k
jeq_k_jf-IsGood {k} h = plain-IsGood (bit_or (bit_or bpf_jmp bpf_jeq) bpf_k) 0 0xff k refl refl h

pub jeq_k_jt-IsGood : {k : ℕ} → k < 2 ^ 32 → IsGood (jeq_k k 0xff 0)
unfolding jeq_k
jeq_k_jt-IsGood {k} h = plain-IsGood (bit_or (bit_or bpf_jmp bpf_jeq) bpf_k) 0xff 0 k refl refl h

pub jgt_k_jf-IsGood : {k : ℕ} → k < 2 ^ 32 → IsGood (jgt_k k 0 0xff)
unfolding jgt_k
jgt_k_jf-IsGood {k} h = plain-IsGood (bit_or (bit_or bpf_jmp bpf_jgt) bpf_k) 0 0xff k refl refl h

pub jgt_k_jt-IsGood : {k : ℕ} → k < 2 ^ 32 → IsGood (jgt_k k 0xff 0)
unfolding jgt_k
jgt_k_jt-IsGood {k} h = plain-IsGood (bit_or (bit_or bpf_jmp bpf_jgt) bpf_k) 0xff 0 k refl refl h

pub jge_k_jf-IsGood : {k : ℕ} → k < 2 ^ 32 → IsGood (jge_k k 0 0xff)
unfolding jge_k
jge_k_jf-IsGood {k} h = plain-IsGood (bit_or (bit_or bpf_jmp bpf_jge) bpf_k) 0 0xff k refl refl h

pub jge_k_jt-IsGood : {k : ℕ} → k < 2 ^ 32 → IsGood (jge_k k 0xff 0)
unfolding jge_k
jge_k_jt-IsGood {k} h = plain-IsGood (bit_or (bit_or bpf_jmp bpf_jge) bpf_k) 0xff 0 k refl refl h

pub jset_k_jf-IsGood : {k : ℕ} → k < 2 ^ 32 → IsGood (jset_k k 0 0xff)
unfolding jset_k
jset_k_jf-IsGood {k} h = plain-IsGood (bit_or (bit_or bpf_jmp bpf_jset) bpf_k) 0 0xff k refl refl h

pub jset_k_jt-IsGood : {k : ℕ} → k < 2 ^ 32 → IsGood (jset_k k 0xff 0)
unfolding jset_k
jset_k_jt-IsGood {k} h = plain-IsGood (bit_or (bit_or bpf_jmp bpf_jset) bpf_k) 0xff 0 k refl refl h

pub jeq_x_jf-IsGood : IsGood (jeq_x 0 0xff)
unfolding jeq_x
jeq_x_jf-IsGood =
    plain-IsGood (bit_or (bit_or bpf_jmp bpf_jeq) bpf_x) 0 0xff 0 refl refl (omega arith)

pub jeq_x_jt-IsGood : IsGood (jeq_x 0xff 0)
unfolding jeq_x
jeq_x_jt-IsGood =
    plain-IsGood (bit_or (bit_or bpf_jmp bpf_jeq) bpf_x) 0xff 0 0 refl refl (omega arith)

pub jgt_x_jf-IsGood : IsGood (jgt_x 0 0xff)
unfolding jgt_x
jgt_x_jf-IsGood =
    plain-IsGood (bit_or (bit_or bpf_jmp bpf_jgt) bpf_x) 0 0xff 0 refl refl (omega arith)

pub jgt_x_jt-IsGood : IsGood (jgt_x 0xff 0)
unfolding jgt_x
jgt_x_jt-IsGood =
    plain-IsGood (bit_or (bit_or bpf_jmp bpf_jgt) bpf_x) 0xff 0 0 refl refl (omega arith)

pub jge_x_jf-IsGood : IsGood (jge_x 0 0xff)
unfolding jge_x
jge_x_jf-IsGood =
    plain-IsGood (bit_or (bit_or bpf_jmp bpf_jge) bpf_x) 0 0xff 0 refl refl (omega arith)

pub jge_x_jt-IsGood : IsGood (jge_x 0xff 0)
unfolding jge_x
jge_x_jt-IsGood =
    plain-IsGood (bit_or (bit_or bpf_jmp bpf_jge) bpf_x) 0xff 0 0 refl refl (omega arith)

pub jset_x_jf-IsGood : IsGood (jset_x 0 0xff)
unfolding jset_x
jset_x_jf-IsGood =
    plain-IsGood (bit_or (bit_or bpf_jmp bpf_jset) bpf_x) 0 0xff 0 refl refl (omega arith)

pub jset_x_jt-IsGood : IsGood (jset_x 0xff 0)
unfolding jset_x
jset_x_jt-IsGood =
    plain-IsGood (bit_or (bit_or bpf_jmp bpf_jset) bpf_x) 0xff 0 0 refl refl (omega arith)

pub tax-IsGood : IsGood tax
unfolding tax is_ja
tax-IsGood = record {
  typed = record {
    code_u16 = omega arith;
    jt_u8 = omega arith;
    jf_u8 = omega arith;
    k_u32 = omega arith;
  };
  canonical = λ m n. absurd (n refl);
  short_ja = λ j. omega arith;
}

pub st-IsGood : {k : ℕ} → k < 2 ^ 32 → IsGood (st k)
unfolding st
st-IsGood {k} h = plain-IsGood (bpf_st) 0 0 k refl refl h

pub ldx_mem-IsGood : {k : ℕ} → k < 2 ^ 32 → IsGood (ldx_mem k)
unfolding ldx_mem
ldx_mem-IsGood {k} h = plain-IsGood (bit_or (bit_or bpf_ldx bpf_w) bpf_mem) 0 0 k refl refl h

pub ja-IsGood : IsGood (ja 0)
unfolding ja is_ja
ja-IsGood = record {
  typed = record {
    code_u16 = omega arith;
    jt_u8 = omega arith;
    jf_u8 = omega arith;
    k_u32 = omega arith;
  };
  canonical = λ m n. absurd (ground arith);
  short_ja = λ j. omega arith;
}

pub ret_k-IsGood : {k : ℕ} → k < 2 ^ 32 → IsGood (ret_k k)
unfolding ret_k
ret_k-IsGood {k} h = plain-IsGood (bit_or bpf_ret bpf_k) 0 0 k refl refl h
