-- ===== src/Ebpf.antt =====
-- pktbaffle/src/ebpf.rs: the constants and `Insn`. The offset, an `i16`, and the immediate, an `i32`, are
-- bit patterns.
pub mod Build
pub mod Encode
pub mod State
pub mod Load
pub mod Transport
pub mod Primitive
pub mod Emit
pub mod Jumps
mod Tests
use pktbaffle.Prelude.{ℕ, ◌*◌, ◌/◌, ◌%◌, ◌^◌, bit_and, bit_or}

abbrev pub bpf_ld : ℕ
bpf_ld = 0x00

abbrev pub bpf_ldx : ℕ
bpf_ldx = 0x01

abbrev pub bpf_st : ℕ
bpf_st = 0x02

abbrev pub bpf_stx : ℕ
bpf_stx = 0x03

abbrev pub bpf_alu : ℕ
bpf_alu = 0x04

abbrev pub bpf_jmp : ℕ
bpf_jmp = 0x05

abbrev pub bpf_jmp32 : ℕ
bpf_jmp32 = 0x06

abbrev pub bpf_alu64 : ℕ
bpf_alu64 = 0x07

abbrev pub bpf_w : ℕ
bpf_w = 0x00

abbrev pub bpf_h : ℕ
bpf_h = 0x08

abbrev pub bpf_b : ℕ
bpf_b = 0x10

abbrev pub bpf_dw : ℕ
bpf_dw = 0x18

abbrev pub bpf_mem : ℕ
bpf_mem = 0x60

abbrev pub bpf_k : ℕ
bpf_k = 0x00

abbrev pub bpf_x : ℕ
bpf_x = 0x08

abbrev pub bpf_add : ℕ
bpf_add = 0x00

abbrev pub bpf_sub : ℕ
bpf_sub = 0x10

abbrev pub bpf_mul : ℕ
bpf_mul = 0x20

abbrev pub bpf_div : ℕ
bpf_div = 0x30

abbrev pub bpf_or : ℕ
bpf_or = 0x40

abbrev pub bpf_and : ℕ
bpf_and = 0x50

abbrev pub bpf_lsh : ℕ
bpf_lsh = 0x60

abbrev pub bpf_rsh : ℕ
bpf_rsh = 0x70

abbrev pub bpf_xor : ℕ
bpf_xor = 0xa0

abbrev pub bpf_mov : ℕ
bpf_mov = 0xb0

abbrev pub bpf_end : ℕ
bpf_end = 0xd0

abbrev pub bpf_to_le : ℕ
bpf_to_le = 0x00

abbrev pub bpf_to_be : ℕ
bpf_to_be = 0x08

abbrev pub bpf_ja : ℕ
bpf_ja = 0x00

abbrev pub bpf_jeq : ℕ
bpf_jeq = 0x10

abbrev pub bpf_jgt : ℕ
bpf_jgt = 0x20

abbrev pub bpf_jge : ℕ
bpf_jge = 0x30

abbrev pub bpf_jset : ℕ
bpf_jset = 0x40

abbrev pub bpf_jne : ℕ
bpf_jne = 0x50

abbrev pub bpf_jlt : ℕ
bpf_jlt = 0xa0

abbrev pub bpf_jle : ℕ
bpf_jle = 0xb0

abbrev pub bpf_exit : ℕ
bpf_exit = 0x90

abbrev pub r0 : ℕ
r0 = 0

abbrev pub r1 : ℕ
r1 = 1

abbrev pub r2 : ℕ
r2 = 2

abbrev pub r3 : ℕ
r3 = 3

abbrev pub r4 : ℕ
r4 = 4

abbrev pub r5 : ℕ
r5 = 5

abbrev pub r6 : ℕ
r6 = 6

abbrev pub r10 : ℕ
r10 = 10

abbrev pub xdp_drop : ℕ
xdp_drop = 1

abbrev pub xdp_pass : ℕ
xdp_pass = 2

pub record Insn : Type 0 where
  pub code : ℕ
  pub regs : ℕ
  pub off : ℕ
  pub imm : ℕ

-- `Insn::new`.
unfoldable pub insn : (code dst src off imm : ℕ) → Insn
insn code dst src off imm = record {
  code = code;
  regs = bit_or (bit_and dst 0xf) (bit_and src 0xf * 2 ^ 4);
  off = off;
  imm = imm;
}

-- `Insn::dst` and `Insn::src`.
unfoldable pub dst_of : Insn → ℕ
dst_of i = bit_and i.regs 0xf

unfoldable pub src_of : Insn → ℕ
src_of i = bit_and (i.regs / 2 ^ 4) 0xf
