-- ===== src/Ebpf/Encode.antt =====
-- pktbaffle/src/ebpf.rs: `Insn::to_le_bytes` and `Program`.
use pktbaffle.Prelude.{
  ℕ, ◌*◌, ◌+◌, ◌/◌, ◌%◌, ◌<◌, ◌^◌, ◌≡◌, refl, List, [], ◌∷◌, ◌++◌, Bool, true, false, length,
  Option, none, some, arith,
}
use pktbaffle.Bpf.Encode.{u16_le_bytes, u32_le_bytes}
use pktbaffle.Ebpf.{Insn}

unfoldable pub to_le_bytes : Insn → List ℕ
unfolding u16_le_bytes u32_le_bytes
to_le_bytes i = i.code ∷ i.regs ∷ u16_le_bytes i.off ++ u32_le_bytes i.imm

pub record Program : Type 0 where
  pub insns : List Insn

-- `Program::to_le_bytes`, `Program::len` and `Program::is_empty`.
unfoldable pub bytes_of : List Insn → List ℕ
unfolding to_le_bytes
bytes_of [] = []
bytes_of (i ∷ is) = to_le_bytes i ++ bytes_of is

unfoldable pub program_bytes : Program → List ℕ
unfolding bytes_of
program_bytes p = bytes_of p.insns

unfoldable pub len : Program → ℕ
len p = length p.insns

unfoldable pub is_empty : Program → Bool
is_empty p = elim p.insns [ [] ↦ true | _ ∷ _ ↦ false ]

-- The fields have their widths.
pub record IsTyped (i : Insn) : Type 0 where
  pub code_u8 : i.code < 2 ^ 8
  pub regs_u8 : i.regs < 2 ^ 8
  pub off_i16 : i.off < 2 ^ 16
  pub imm_i32 : i.imm < 2 ^ 32

pub data AllTyped : List Insn → Type 0 where
  none_left : AllTyped []
  also : {i : Insn} {is : List Insn} → IsTyped i → AllTyped is → AllTyped (i ∷ is)

-- An independent reader of records of eight bytes.
unfoldable pub read_insns : List ℕ → Option (List Insn)
read_insns [] = some []
read_insns (a ∷ b ∷ c ∷ d ∷ e ∷ f ∷ g ∷ h ∷ rest) = elim (read_insns rest) [
  | some is ↦ some (
      record {
        code = a;
        regs = b;
        off = c + d * 2 ^ 8;
        imm = e + f * 2 ^ 8 + g * 2 ^ 16 + h * 2 ^ 24;
      }
      ∷ is)
  | none ↦ none
]
read_insns _ = none

-- For a program whose fields have their widths, `to_le_bytes` gives records of eight bytes that an
-- independent reader reads back as the program.
pub read_insns-bytes_of : (is : List Insn) → AllTyped is → read_insns (bytes_of is) ≡ some is
unfolding read_insns bytes_of to_le_bytes u16_le_bytes u32_le_bytes
read_insns-bytes_of [] none_left = refl
read_insns-bytes_of (i ∷ is) (also t ts) =
    let o = t.off_i16 in
    let m = t.imm_i32 in
    let off : i.off % 256 + i.off / 256 % 256 * 2 ^ 8 ≡ i.off = omega arith in
    let imm : i.imm % 256
          + i.imm / 256 % 256 * 2 ^ 8
          + i.imm / 65536 % 256 * 2 ^ 16
          + i.imm / 16777216 % 256 * 2 ^ 24
        ≡ i.imm =
      omega arith in
    rw (read_insns-bytes_of is ts, off, imm) refl
