-- ===== src/Bpf/Tests.antt =====
-- pktbaffle/src/bpf.rs: the encoding of a concrete program.
use pktbaffle.Prelude.{◌≡◌, refl, some, [], ◌∷◌, arith, length, ◌*◌}
use pktbaffle.Bpf.{bpf_accept}
use pktbaffle.Bpf.Build.{ldh_abs, ret_k}
use pktbaffle.Bpf.Encode.{
  Program, len, program_bytes, bytes_of, to_le_bytes, u16_le_bytes, u32_le_bytes,
}
use pktbaffle.Bpf.RoundTrip.{
  AllTyped, no_more, typed_then, read_program, read_program-program_bytes,
}

abbrev two : Program
two = record { insns = ldh_abs 12 ∷ ret_k bpf_accept ∷ [] }

two_bytes :
    program_bytes two
    ≡ 0x28 ∷ 0 ∷ 0 ∷ 0 ∷ 12 ∷ 0 ∷ 0 ∷ 0 ∷ 6 ∷ 0 ∷ 0 ∷ 0 ∷ 0xff ∷ 0xff ∷ 0xff ∷ 0xff ∷ []
unfolding program_bytes bytes_of to_le_bytes u16_le_bytes u32_le_bytes ldh_abs ret_k
two_bytes = refl

two-AllTyped : AllTyped two.insns
unfolding ldh_abs ret_k
two-AllTyped =
    typed_then
      (record {
        code_u16 = omega arith;
        jt_u8 = omega arith;
        jf_u8 = omega arith;
        k_u32 = omega arith;
      })
      (typed_then
        (record {
          code_u16 = omega arith;
          jt_u8 = omega arith;
          jf_u8 = omega arith;
          k_u32 = omega arith;
        })
        no_more)

read_program-program_bytes_example :
    (read_program (program_bytes two) ≡ some two.insns) × (length (program_bytes two) ≡ 8 * len two)
read_program-program_bytes_example = read_program-program_bytes two two-AllTyped
