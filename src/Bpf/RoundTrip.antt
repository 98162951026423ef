-- ===== src/Bpf/RoundTrip.antt =====
-- pktbaffle/src/bpf.rs: the bytes of a program, read back by the layout of the kernel's filter record:
-- a 16-bit code, two jump bytes and a 32-bit operand, each with its low byte first.
use pktbaffle.Prelude.{
  ℕ, ◌+◌, ◌*◌, ◌/◌, ◌%◌, ◌≡◌, refl, ap, ap₂, ◌∙◌, Option, some, none, List, [], ◌∷◌, ◌++◌, length,
  arith,
}
use pktbaffle.Bpf.{Insn, IsTyped}
use pktbaffle.Bpf.Encode.{
  u16_le_bytes, u32_le_bytes, to_le_bytes, bytes_of, program_bytes, Program, len,
}

-- One record of eight bytes.
abbrev read_insn : (c0 c1 t f k0 k1 k2 k3 : ℕ) → Insn
read_insn c0 c1 t f k0 k1 k2 k3 = record {
  code = c0 + 256 * c1;
  jt = t;
  jf = f;
  k = k0 + 256 * (k1 + 256 * (k2 + 256 * k3));
}

-- `none` where the bytes end inside a record.
unfoldable pub read_program : List ℕ → Option (List Insn)
read_program [] = some []
read_program (c0 ∷ c1 ∷ t ∷ f ∷ k0 ∷ k1 ∷ k2 ∷ k3 ∷ bytes) = elim (read_program bytes) [
  | some is ↦ some (read_insn c0 c1 t f k0 k1 k2 k3 ∷ is)
  | none ↦ none
]
read_program _ = none

pub data AllTyped : List Insn → Type 0 where
  no_more : AllTyped []
  typed_then : {i : Insn} {is : List Insn} → IsTyped i → AllTyped is → AllTyped (i ∷ is)

-- The digits of the two wide fields give them back.
read_insn_lem :
    (i : Insn)
    → IsTyped i
    → read_insn
        (i.code % 256)
        (i.code / 256 % 256)
        i.jt
        i.jf
        (i.k % 256)
        (i.k / 256 % 256)
        (i.k / 65536 % 256)
        (i.k / 16777216 % 256)
      ≡ i
read_insn_lem i h =
    let c = h.code_u16 in
    let w = h.k_u32 in
    ap₂ (λ code k. record { code = code; jt = i.jt; jf = i.jf; k = k }) (omega arith) (omega arith)

read_program-to_le_bytes :
    (i : Insn) (bytes : List ℕ)
    → IsTyped i
    → read_program (to_le_bytes i ++ bytes)
      ≡ elim (read_program bytes) [ some is ↦ some (i ∷ is) | none ↦ none ]
unfolding read_program to_le_bytes u16_le_bytes u32_le_bytes
read_program-to_le_bytes i bytes h =
    ap
      (λ j. elim (read_program bytes) as (λ _. Option (List Insn)) [
        | some is ↦ some (j ∷ is)
        | none ↦ none
      ])
      (read_insn_lem i h)

read_program-bytes_of : (p : List Insn) → AllTyped p → read_program (bytes_of p) ≡ some p
unfolding bytes_of read_program
read_program-bytes_of [] no_more = refl
read_program-bytes_of (i ∷ is) (typed_then h t) =
    read_program-to_le_bytes i (bytes_of is) h
    ∙ ap (λ o. elim o as (λ _. Option (List Insn)) [ some js ↦ some (i ∷ js) | none ↦ none ])
        (read_program-bytes_of is t)

program-length : (p : List Insn) → length (bytes_of p) ≡ 8 * length p
unfolding bytes_of to_le_bytes u16_le_bytes u32_le_bytes
program-length [] = refl
program-length (i ∷ is) = omega (arith, program-length is)

-- The bytes of a program of typed instructions, eight for each, read back record by record, are the
-- program.
pub read_program-program_bytes :
    (p : Program)
    → AllTyped p.insns
    → (read_program (program_bytes p) ≡ some p.insns) × (length (program_bytes p) ≡ 8 * len p)
unfolding program_bytes len
read_program-program_bytes p h = (read_program-bytes_of p.insns h, program-length p.insns)
