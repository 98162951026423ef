-- ===== src/Bpf/Encode.antt =====
-- pktbaffle/src/bpf.rs: `Insn::to_le_bytes` and `Program`.
use pktbaffle.Prelude.{ℕ, ◌/◌, ◌%◌, List, [], ◌∷◌, ◌++◌, Bool, true, false, length}
use pktbaffle.Bpf.{Insn}

-- `u16::to_le_bytes` and `u32::to_le_bytes`.
unfoldable pub u16_le_bytes : ℕ → List ℕ
u16_le_bytes n = n % 256 ∷ n / 256 % 256 ∷ []

unfoldable pub u32_le_bytes : ℕ → List ℕ
u32_le_bytes n = n % 256 ∷ n / 256 % 256 ∷ n / 65536 % 256 ∷ n / 16777216 % 256 ∷ []

unfoldable pub to_le_bytes : Insn → List ℕ
unfolding u16_le_bytes u32_le_bytes
to_le_bytes i = u16_le_bytes i.code ++ (i.jt ∷ i.jf ∷ u32_le_bytes i.k)

pub record Program : Type 0 where
  pub insns : List Insn

-- `Program::to_le_bytes`, `Program::len` and `Program::is_empty`.
unfoldable pub bytes_of : List Insn → List ℕ
bytes_of [] = []
bytes_of (i ∷ is) = to_le_bytes i ++ bytes_of is

unfoldable pub program_bytes : Program → List ℕ
unfolding bytes_of to_le_bytes
program_bytes p = bytes_of p.insns

unfoldable pub len : Program → ℕ
len p = length p.insns

unfoldable pub is_empty : Program → Bool
is_empty p = elim p.insns [ [] ↦ true | _ ∷ _ ↦ false ]
