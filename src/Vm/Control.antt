-- ===== src/Vm/Control.antt =====
-- pktbaffle/src/vm.rs: what one instruction does to the program counter and to the accumulator,
-- by the class of its opcode.

use pktbaffle.Prelude.{
  ℕ, ◌+◌, ◌≤◌, ◌<◌, ◌≡◌, ◌≢◌, Option, none, some, bit_and, if◌then◌else◌, ◌>>=◌, arith,
}
use pktbaffle.Bpf.{Insn, bpf_ld, bpf_alu, bpf_jmp, bpf_ret, bpf_misc, bpf_ja, bpf_abs}
use pktbaffle.Vm.{Packet, Regs, Step, next, returned, exec, ld_value, taken, sized_load, usize_mod}

abbrev pub class_of : Insn → ℕ
class_of i = bit_and i.code 0x07

-- The same step, taken at another place of the program.
abbrev pub moved : ℕ → Option Step → Option Step
moved pc none = none
moved pc (some (next _ s)) = some (next pc s)
moved pc (some (returned b)) = some (returned b)

module _ (i : Insn) (pkt : Packet) (pc : ℕ) (s : Regs) where
  -- The counter never moves backwards, unless the addition of `ja` wraps.
  pub exec-next :
      (pc' : ℕ) (s' : Regs) → exec i pkt pc s ≡ some (next pc' s') → pc + i.k < usize_mod → pc ≤ pc'
  unfolding exec
  exec-next pc' s' h fits = ground arith

  pub exec-ja :
      class_of i ≡ bpf_jmp
      → bit_and i.code 0xf0 ≡ bpf_ja
      → pc + i.k < usize_mod
      → exec i pkt pc s ≡ some (next (pc + i.k) s)
  unfolding exec
  exec-ja c o h = ground arith

  pub exec-cond :
      class_of i ≡ bpf_jmp
      → bit_and i.code 0xf0 ≢ bpf_ja
      → exec i pkt pc s ≡ (taken i s >>= λ t. some (next (pc + (if t then i.jt else i.jf)) s))
  unfolding exec
  exec-cond c o = ground arith

  -- What is no jump and no return goes on to the next instruction, or faults.
  pub exec_straight :
      (pc' : ℕ) (s' : Regs) → class_of i ≢ bpf_jmp → exec i pkt pc s ≡ some (next pc' s') → pc' ≡ pc
  unfolding exec
  exec_straight pc' s' c h = ground arith

  -- A return never goes on.
  pub not-exec-ret-next :
      (pc' : ℕ) (s' : Regs) → class_of i ≡ bpf_ret → exec i pkt pc s ≢ some (next pc' s')
  unfolding exec
  not-exec-ret-next pc' s' c = ground arith

  pub exec-ld_abs :
      class_of i ≡ bpf_ld
      → bit_and i.code 0xe0 ≡ bpf_abs
      → exec i pkt pc s
        ≡ (sized_load pkt i.k (bit_and i.code 0x18) >>= λ v. some (next pc (record s { a = v })))
  unfolding exec ld_value
  exec-ld_abs c m = ground arith

  -- An instruction that is no load into A, no ALU operation and no TXA leaves A alone.
  pub exec-a :
      (pc' : ℕ) (s' : Regs)
      → exec i pkt pc s ≡ some (next pc' s')
      → class_of i ≢ bpf_ld
      → class_of i ≢ bpf_alu
      → (class_of i ≡ bpf_misc → bit_and i.code 0x80 ≡ 0)
      → s'.a ≡ s.a
  unfolding exec
  exec-a pc' s' h l al m = ground arith

-- What is no jump does the same wherever it stands.
pub exec-moved :
    (i : Insn) (pkt : Packet) (pc pc₂ : ℕ) (s : Regs)
    → class_of i ≢ bpf_jmp
    → exec i pkt pc₂ s ≡ moved pc₂ (exec i pkt pc s)
unfolding exec
exec-moved i pkt pc pc₂ s c = ground arith
