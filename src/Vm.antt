-- ===== src/Vm.antt =====
-- pktbaffle/src/vm.rs: the software interpreter of classic BPF.
-- A packet is a list of bytes. A `return None` or a failed `?` is `none`. `loop` is a recursion
-- on fuel, one unit for each instruction executed.
pub mod Control
pub mod Runs
mod Tests
use pktbaffle.Prelude.{
  ℕ, zero, suc, ◌+◌, ◌-◌, ◌*◌, ◌/◌, ◌%◌, ◌^◌, bit_and, bit_or, bit_xor, List, Bool, false, not,
  ◌&&◌, Option, none, some, ltb, leb, ◌==◌, if◌then◌else◌, ◌>>=◌, length, get_elem?, set, replicate,
}
use pktbaffle.Bpf.{
  Insn, bpf_ld, bpf_ldx, bpf_st, bpf_stx, bpf_alu, bpf_jmp, bpf_ret, bpf_misc, bpf_w, bpf_h, bpf_b,
  bpf_imm, bpf_abs, bpf_ind, bpf_mem, bpf_len, bpf_msh, bpf_add, bpf_sub, bpf_mul, bpf_div, bpf_or,
  bpf_and, bpf_lsh, bpf_rsh, bpf_neg, bpf_xor, bpf_ja, bpf_jeq, bpf_jgt, bpf_jge, bpf_jset, bpf_x,
}

abbrev pub scratch_slots : ℕ
scratch_slots = 16

abbrev pub Packet : Type 0
Packet = List ℕ

abbrev pub u32_mod : ℕ
u32_mod = 2 ^ 32

abbrev pub usize_mod : ℕ
usize_mod = 2 ^ 64

-- The registers: `a`, `x` and the scratch memory.
pub record Regs : Type 0 where
  pub a : ℕ
  pub x : ℕ
  pub scratch : List ℕ

abbrev pub init : Regs
init = record { a = 0; x = 0; scratch = replicate scratch_slots 0 }

unfoldable pub uses_x : Insn → Bool
uses_x i = bit_and i.code 0x08 == bpf_x

-- Big-endian loads; a range that leaves the packet is `none`.
unfoldable pub sized_load : Packet → ℕ → ℕ → Option ℕ
sized_load pkt off size =
    if size == bpf_w
    then (do
      b0 ← get_elem? pkt off
      b1 ← get_elem? pkt (off + 1)
      b2 ← get_elem? pkt (off + 2)
      b3 ← get_elem? pkt (off + 3)
      some (((b0 * 256 + b1) * 256 + b2) * 256 + b3))
    else if size == bpf_h
    then (do b0 ← get_elem? pkt off; b1 ← get_elem? pkt (off + 1); some (b0 * 256 + b1))
    else if size == bpf_b
    then get_elem? pkt off
    else none

-- The value that a `BPF_LD` puts into `a`.
unfoldable pub ld_value : Insn → Packet → Regs → Option ℕ
ld_value i pkt s =
    let mode = bit_and i.code 0xe0 in
    let size = bit_and i.code 0x18 in
    if mode == bpf_abs
    then sized_load pkt i.k size
    else if mode == bpf_ind
    then sized_load pkt ((s.x + i.k) % u32_mod) size
    else if mode == bpf_len
    then some (length pkt % u32_mod)
    else if mode == bpf_imm
    then some i.k
    else if mode == bpf_mem
    then get_elem? s.scratch i.k
    else none

-- The value that a `BPF_LDX` puts into `x`.
unfoldable pub ldx_value : Insn → Packet → Regs → Option ℕ
ldx_value i pkt s =
    let size = bit_and i.code 0x18 in
    let mode = bit_and i.code 0xe0 in
    if size == bpf_b && mode == bpf_msh
    then (do b ← get_elem? pkt i.k; some (4 * bit_and b 0xf))
    else if mode == bpf_imm
    then some i.k
    else if mode == bpf_mem
    then get_elem? s.scratch i.k
    else if mode == bpf_len
    then some (length pkt % u32_mod)
    else none

-- `*scratch.get_mut(k)? = v`.
unfoldable pub store : List ℕ → ℕ → ℕ → Option (List ℕ)
store scratch k v = if ltb k (length scratch) then some (set scratch k v) else none

unfoldable pub alu_value : Insn → Regs → Option ℕ
alu_value i s =
    let v = if uses_x i then s.x else i.k in
    let op = bit_and i.code 0xf0 in
    if op == bpf_add
    then some ((s.a + v) % u32_mod)
    else if op == bpf_sub
    then some ((s.a + u32_mod - v) % u32_mod)
    else if op == bpf_mul
    then some (s.a * v % u32_mod)
    else if op == bpf_div
    then (if v == 0 then none else some (s.a / v))
    else if op == bpf_or
    then some (bit_or s.a v)
    else if op == bpf_and
    then some (bit_and s.a v)
    else if op == bpf_lsh
    then some (s.a * 2 ^ bit_and v 31 % u32_mod)
    else if op == bpf_rsh
    then some (s.a / 2 ^ bit_and v 31)
    else if op == bpf_neg
    then some ((u32_mod - s.a) % u32_mod)
    else if op == bpf_xor
    then some (bit_xor s.a v)
    else none

-- Whether a conditional jump is taken.
unfoldable pub taken : Insn → Regs → Option Bool
taken i s =
    let v = if uses_x i then s.x else i.k in
    let op = bit_and i.code 0xf0 in
    if op == bpf_jeq
    then some (s.a == v)
    else if op == bpf_jgt
    then some (ltb v s.a)
    else if op == bpf_jge
    then some (leb v s.a)
    else if op == bpf_jset
    then some (not (bit_and s.a v == 0))
    else none

-- What one turn of the loop leaves: the next `pc` and the registers, or the returned verdict.
pub data Step : Type 0 where
  next : ℕ → Regs → Step
  returned : Bool → Step

-- One turn of the loop, after `pc += 1`.
unfoldable pub exec : Insn → Packet → ℕ → Regs → Option Step
exec i pkt pc s =
    let class = bit_and i.code 0x07 in
    if class == bpf_ld
    then (do v ← ld_value i pkt s; some (next pc (record s { a = v })))
    else if class == bpf_ldx
    then (do v ← ldx_value i pkt s; some (next pc (record s { x = v })))
    else if class == bpf_st
    then (do m ← store s.scratch i.k s.a; some (next pc (record s { scratch = m })))
    else if class == bpf_stx
    then (do m ← store s.scratch i.k s.x; some (next pc (record s { scratch = m })))
    else if class == bpf_alu
    then (do v ← alu_value i s; some (next pc (record s { a = v })))
    else if class == bpf_jmp
    then (if bit_and i.code 0xf0 == bpf_ja
        then some (next ((pc + i.k) % usize_mod) s)
        else (do t ← taken i s; some (next (pc + (if t then i.jt else i.jf)) s)))
    else if class == bpf_ret
    then some (returned (not ((if not (bit_and i.code 0x10 == 0) then s.a else i.k) == 0)))
    else if class == bpf_misc
    then some (
        next pc
          (if not (bit_and i.code 0x80 == 0) then record s { a = s.x } else record s { x = s.a }))
    else none

-- One whole turn from `pc`: the fetch, then `exec`. It stops with what `inner` returns, or goes on.
pub data Turn : Type 0 where
  stop : Option Bool → Turn
  go : ℕ → Regs → Turn

abbrev pub after : Option Step → Turn
after none = stop none
after (some (next pc s)) = go pc s
after (some (returned b)) = stop (some b)

unfoldable pub turn : List Insn → Packet → ℕ → Regs → Turn
turn insns pkt pc s = elim (get_elem? insns pc) [
  | none ↦ stop none
  | some i ↦ after (exec i pkt (pc + 1) s)
]

-- The result of the loop: out of fuel, or what the function returns.
pub data Outcome : Type 0 where
  out_of_fuel : Outcome
  finished : Option Bool → Outcome

unfoldable pub loop : ℕ → List Insn → Packet → ℕ → Regs → Outcome
loop zero insns pkt pc s = out_of_fuel
loop (suc fuel) insns pkt pc s = elim (turn insns pkt pc s) [
  | stop r ↦ finished r
  | go pc' s' ↦ loop fuel insns pkt pc' s'
]

-- `inner`: a program of `n` instructions is given `n + 1` turns.
unfoldable pub inner : List Insn → Packet → Outcome
inner insns pkt = loop (suc (length insns)) insns pkt 0 init

-- `run`: `inner(…).unwrap_or(false)`.
abbrev pub verdict : Outcome → Bool
verdict (finished (some b)) = b
verdict _ = false

unfoldable pub run : List Insn → Packet → Bool
run insns pkt = verdict (inner insns pkt)
