-- ===== src/Optimizer/Decode.antt =====
-- pktbaffle/src/optimizer.rs: what the opcode tests say of an instruction when it is executed.
use pktbaffle.Prelude.{
  ℕ, ◌+◌, ◌<◌, ◌≡◌, ◌≢◌, inl, inr, true, false, some, bit_and, if◌then◌else◌, ◌>>=◌, arith, ==_iff,
  Bool-cases,
}
use pktbaffle.Prelude.Bits.{mode_mask, class_mode_mask, class_mask}
use pktbaffle.Bpf.{Insn, bpf_ld, bpf_jmp, bpf_ret, bpf_misc, bpf_ja, bpf_abs, bpf_txa}
use pktbaffle.Vm.{Packet, Regs, next, exec, taken, sized_load, usize_mod}
use pktbaffle.Vm.Control.{class_of, exec-ja, exec-cond, exec-ld_abs, exec-a}
use pktbaffle.Optimizer.{is_ja, is_cond_jump, is_ld_abs, is_ret, writes_a}

-- The four ways in which the passes treat an instruction.
pub data Kind (i : Insn) : Type 0 where
  a_ret : is_ret i ≡ true → class_of i ≡ bpf_ret → Kind i
  a_ja : is_ret i ≡ false → is_ja i ≡ true → Kind i
  a_cond : is_ret i ≡ false → is_ja i ≡ false → is_cond_jump i ≡ true → Kind i
  a_straight :
      is_ret i ≡ false → is_ja i ≡ false → is_cond_jump i ≡ false → class_of i ≢ bpf_jmp → Kind i

ret_class : (i : Insn) → is_ret i ≡ true → class_of i ≡ bpf_ret
unfolding is_ret
ret_class i h = ground arith

no_jump : (i : Insn) → is_ja i ≡ false → is_cond_jump i ≡ false → class_of i ≢ bpf_jmp
unfolding is_ja is_cond_jump
no_jump i h c = ground arith

ja_parts : (i : Insn) → is_ja i ≡ true → (class_of i ≡ bpf_jmp) × (bit_and i.code 0xf0 ≡ bpf_ja)
unfolding is_ja
ja_parts i h = ground arith

cond_parts :
    (i : Insn) → is_cond_jump i ≡ true → (class_of i ≡ bpf_jmp) × (bit_and i.code 0xf0 ≢ bpf_ja)
unfolding is_cond_jump
cond_parts i h = ground arith

ld_abs_parts :
    (i : Insn) → is_ld_abs i ≡ true → (class_of i ≡ bpf_ld) × (bit_and i.code 0xe0 ≡ bpf_abs)
unfolding is_ld_abs
ld_abs_parts i h =
    let e : bit_and i.code 0xe7 ≡ bpf_abs = (==_iff _ _).0 h in
    (
      omega (arith, class_mode_mask i.code, class_mask i.code),
      omega (arith, class_mode_mask i.code, mode_mask i.code),
    )

pub ret_no_jump : (i : Insn) → is_ret i ≡ true → (is_ja i ≡ false) × (is_cond_jump i ≡ false)
unfolding is_ret is_ja is_cond_jump
ret_no_jump i h = (ground arith, ground arith)

pub classify : (i : Insn) → Kind i
classify i = elim (Bool-cases (is_ret i)) [
  | inl r ↦ a_ret r (ret_class i r)
  | inr r ↦ elim (Bool-cases (is_ja i)) [
    | inl j ↦ a_ja r j
    | inr j ↦ elim (Bool-cases (is_cond_jump i)) [
      | inl c ↦ a_cond r j c
      | inr c ↦ a_straight r j c (no_jump i j c)
    ]
  ]
]

-- An opcode of class MISC with bit 0x80 set is TXA and nothing else. The interpreter executes any
-- such opcode as TXA, the passes only 0x87: an opcode such as 0x8f would be read in two ways.
abbrev pub IsCanonical : Insn → Type 0
IsCanonical i = class_of i ≡ bpf_misc → bit_and i.code 0x80 ≢ 0 → bit_and i.code 0xf8 ≡ bpf_txa

module _ (i : Insn) (pkt : Packet) (pc : ℕ) (s : Regs) where
  pub exec_of_ja :
      is_ja i ≡ true → pc + i.k < usize_mod → exec i pkt pc s ≡ some (next (pc + i.k) s)
  exec_of_ja j h = let (c, o) = ja_parts i j in exec-ja i pkt pc s c o h

  pub exec_of_cond :
      is_cond_jump i ≡ true
      → exec i pkt pc s ≡ (taken i s >>= λ t. some (next (pc + (if t then i.jt else i.jf)) s))
  exec_of_cond j = let (c, o) = cond_parts i j in exec-cond i pkt pc s c o

  pub exec_of_ld_abs :
      is_ld_abs i ≡ true
      → exec i pkt pc s
        ≡ (sized_load pkt i.k (bit_and i.code 0x18) >>= λ v. some (next pc (record s { a = v })))
  exec_of_ld_abs j = let (c, o) = ld_abs_parts i j in exec-ld_abs i pkt pc s c o

  -- What does not write the accumulator, for the passes, leaves it alone when executed.
  pub exec_keeps_a :
      (pc' : ℕ) (s' : Regs)
      → exec i pkt pc s ≡ some (next pc' s')
      → IsCanonical i
      → writes_a i ≡ false
      → s'.a ≡ s.a
  unfolding writes_a
  exec_keeps_a pc' s' h can w =
      exec-a i pkt pc s pc' s' h (ground arith) (ground arith) (λ m. ground arith)
