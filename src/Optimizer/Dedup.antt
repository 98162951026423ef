-- ===== src/Optimizer/Dedup.antt =====
-- pktbaffle/src/optimizer.rs: `dedup_loads` and `adjust_jumps`.
use pktbaffle.Prelude.{
  ℕ, zero, suc, ◌+◌, ◌-◌, List, [], ◌∷◌, Bool, true, false, not, ◌&&◌, Option, none, some, ltb, leb,
  ◌==◌, if◌then◌else◌, bit_and, length, get_elem?,
}
use pktbaffle.Bpf.{Insn, bpf_jmp, bpf_ja}
use pktbaffle.Optimizer.{is_ld_abs}

-- The closure `adjust`, on one 8-bit field of the instruction at `src`.
unfoldable pub adjust_field : ℕ → ℕ → ℕ → ℕ
adjust_field removed src field =
    if leb removed (src + 1 + field) && ltb 0 field then field - 1 else field

-- The body of the loop of `adjust_jumps`. The source subtracts from a `ja` with no guard; with
-- `src < removed ≤ src + 1 + k` the offset can be 0 only where `removed` is `src + 1`.
unfoldable pub adjust_insn : ℕ → ℕ → Insn → Insn
adjust_insn removed src x =
    if not (bit_and x.code 0x07 == bpf_jmp)
    then x
    else if leb removed src
    then x
    else if bit_and x.code 0xf0 == bpf_ja
    then (if leb removed (src + 1 + x.k) then record x { k = x.k - 1 } else x)
    else record x { jt = adjust_field removed src x.jt; jf = adjust_field removed src x.jf }

unfoldable pub adjust_from : ℕ → ℕ → List Insn → List Insn
adjust_from removed src [] = []
adjust_from removed src (x ∷ xs) = adjust_insn removed src x ∷ adjust_from removed (src + 1) xs

unfoldable pub adjust_jumps : List Insn → ℕ → List Insn
adjust_jumps insns removed = adjust_from removed 0 insns

-- `Vec::remove`.
unfoldable pub remove_at : ℕ → List Insn → List Insn
remove_at i [] = []
remove_at zero (x ∷ xs) = xs
remove_at (suc i) (x ∷ xs) = x ∷ remove_at i xs

-- Two adjacent instructions that are the same absolute load.
unfoldable pub same_load : Option Insn → Option Insn → Bool
same_load (some cur) (some nxt) =
    is_ld_abs cur && is_ld_abs nxt && cur.code == nxt.code && cur.k == nxt.k
same_load _ _ = false

-- The `while` loop from index `i`; `none` means that the fuel ran out.
unfoldable pub dedup_from : ℕ → List Insn → ℕ → Option (List Insn)
dedup_from zero insns i = none
dedup_from (suc fuel) insns i = elim (ltb (i + 1) (length insns)) [
  | false ↦ some insns
  | true ↦ elim (same_load (get_elem? insns i) (get_elem? insns (i + 1))) [
    | true ↦ dedup_from fuel (adjust_jumps (remove_at (i + 1) insns) (i + 1)) i
    | false ↦ dedup_from fuel insns (i + 1)
  ]
]

unfoldable pub dedup_loads : List Insn → Option (List Insn)
dedup_loads insns = dedup_from (suc (length insns)) insns 0
