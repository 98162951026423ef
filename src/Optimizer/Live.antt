-- ===== src/Optimizer/Live.antt =====
-- pktbaffle/src/optimizer.rs: what the marks say of a run when it comes to an instruction.
use pktbaffle.Prelude.{
  ℕ, zero, suc, ◌+◌, ◌≤◌, ◌<◌, ◌≡◌, ◌⊎◌, inl, inr, refl, sym, ap, ◌∙◌, Bool, true, false, some,
  none, Option, if◌then◌else◌, ◌>>=◌, bit_and, arith, List, [], ◌∷◌, get_elem?, length, replicate,
  Bool-cases, lt_of_get_elem?, length-replicate, subst,
}
use pktbaffle.Bpf.{Insn, IsTyped}
use pktbaffle.Vm.{Packet, Regs, next, exec, taken, sized_load, usize_mod, init}
use pktbaffle.Vm.Control.{not-exec-ret-next, exec_straight}
use pktbaffle.Optimizer.{
  AState, unknown, load, transfer, is_redundant, is_ret, is_ja, is_cond_jump, is_ld_abs, writes_a,
  initial_slots, state_eq,
}
use pktbaffle.Optimizer.Decode.{
  Kind, a_ret, a_ja, a_cond, a_straight, classify, exec_of_ja, exec_of_cond, exec_of_ld_abs,
  exec_keeps_a, IsCanonical,
}
use pktbaffle.Optimizer.Sane.{IsSane}
use pktbaffle.Optimizer.Flow.{
  Edge, by_ja, by_jt, by_jf, by_fall, slot_at, Covers, final_slots, final_slots_flow,
  length-initial_slots, entry_slot, state_eq_iff,
}
use pktbaffle.Optimizer.Reach.{Marked, Walk, Edge-Marked}

-- A turn that goes on follows an edge.
pub exec-Edge :
    (x : Insn) (pkt : Packet) (pc : ℕ) (s : Regs) (pc' : ℕ) (s' : Regs)
    → pc + x.k < usize_mod
    → exec x pkt pc s ≡ some (next pc' s')
    → (d : ℕ) × Edge x d × (pc' ≡ pc + d)
exec-Edge x pkt pc s pc' s' small h = by_kind (classify x)
  where
    branch :
        is_ret x ≡ false
        → is_ja x ≡ false
        → is_cond_jump x ≡ true
        → (o : Option Bool)
        → (o >>= λ t. some (next (pc + (if t then x.jt else x.jf)) s)) ≡ some (next pc' s')
        → (d : ℕ) × Edge x d × (pc' ≡ pc + d)
    branch r j c none e = absurd (ground arith)
    branch r j c (some true) e = (x.jt, by_jt r j c refl, ground arith)
    branch r j c (some false) e = (x.jf, by_jf r j c refl, ground arith)

    by_kind : Kind x → (d : ℕ) × Edge x d × (pc' ≡ pc + d)
    by_kind (a_ret _ c) = absurd (not-exec-ret-next x pkt pc s pc' s' c h)
    by_kind (a_ja r j) =
        let e : some (next (pc + x.k) s) ≡ some (next pc' s') =
          sym (exec_of_ja x pkt pc s j small) ∙ h in
        (x.k, by_ja r j refl, ground arith)
    by_kind (a_cond r j c) = branch r j c (taken x s) (sym (exec_of_cond x pkt pc s c) ∙ h)
    by_kind (a_straight r j c n) =
        (0, by_fall r j c refl, omega (arith, exec_straight x pkt pc s pc' s' n h))

-- The accumulator holds what the state says: the value of a load that did not fault.
abbrev pub Holds : Packet → AState → Regs → Type 0
Holds pkt unknown s = Unit
Holds pkt (load c k) s = sized_load pkt k (bit_and c 0x18) ≡ some s.a

Holds-a : (pkt : Packet) (st : AState) (s s' : Regs) → s'.a ≡ s.a → Holds pkt st s → Holds pkt st s'
Holds-a pkt unknown s s' e h = tt
Holds-a pkt (load c k) s s' e h = h ∙ ap some (sym e)

-- One instruction executed takes what holds before to what `transfer` says.
pub exec-Holds :
    (x : Insn) (pkt : Packet) (pc : ℕ) (s : Regs) (pc' : ℕ) (s' : Regs) (st : AState)
    → IsCanonical x
    → exec x pkt pc s ≡ some (next pc' s')
    → Holds pkt st s
    → Holds pkt (transfer x st) s'
unfolding transfer
exec-Holds x pkt pc s pc' s' st can h k = elim (Bool-cases (is_ld_abs x)) [
  | inl l ↦
      rw l
        (loaded (sized_load pkt x.k (bit_and x.code 0x18)) (sym (exec_of_ld_abs x pkt pc s l) ∙ h))
  | inr l ↦ elim (Bool-cases (writes_a x)) [
    | inl w ↦ rw (l, w) tt
    | inr w ↦ rw (l, w) (Holds-a pkt st s s' (exec_keeps_a x pkt pc s pc' s' h can w) k)
  ]
]
  where
    loaded :
        (o : Option ℕ)
        → (o >>= λ v. some (next pc (record s { a = v }))) ≡ some (next pc' s')
        → o ≡ some s'.a
    loaded none e = absurd (ground arith)
    loaded (some v) e = ground arith

Covers-Holds :
    (pkt : Packet) (out : AState) (slot : Option AState) (s : Regs)
    → Covers out slot
    → Holds pkt out s
    → (st : AState) × (slot ≡ some st) × Holds pkt st s
Covers-Holds pkt out slot s (inl e) h = (unknown, e, tt)
Covers-Holds pkt out slot s (inr e) h = (out, e, h)

module _ (p : List Insn) (pkt : Packet) (sane : IsSane p) (marks : List Bool)
    (walked : Walk p (0 ∷ []) (replicate (length p) false) marks) where
  abbrev pub slots : List (Option AState)
  slots = final_slots p (initial_slots p)

  -- A place that a run can come to: past the end, or marked, with a slot that holds.
  abbrev pub Live : ℕ → Regs → Type 0
  Live pc s =
      (length p ≤ pc)
      ⊎ (Marked marks pc × ((st : AState) × (slot_at slots pc ≡ some st) × Holds pkt st s))

  pub Live-init : Live 0 init
  Live-init = at_entry (length p) refl
    where
      at_entry : (n : ℕ) → n ≡ length p → Live 0 init
      at_entry zero e = inl (omega arith)
      at_entry (suc n) e = elim (walked.reaches 0 (inl refl)) [
        | inl m ↦ inr (m, (unknown, entry_slot p (omega arith), tt))
        | inr g ↦ inl g
      ]

  -- The marks and the slots are kept along every turn.
  pub Live-next :
      (pc : ℕ) (s : Regs) (x : Insn) (st : AState) (pc' : ℕ) (s' : Regs)
      → get_elem? p pc ≡ some x
      → Marked marks pc
      → slot_at slots pc ≡ some st
      → Holds pkt st s
      → exec x pkt (pc + 1) s ≡ some (next pc' s')
      → Live pc' s'
  Live-next pc s x st pc' s' e m f h ex =
      let t : IsTyped x = sane.fits.typed pc x e in
      let small : pc + 1 + x.k < usize_mod =
        omega (arith, lt_of_get_elem? p pc e, sane.fits.short, t.k_u32) in
      let (d, edge, q) = exec-Edge x pkt (pc + 1) s pc' s' small ex in
      let k = exec-Holds x pkt (pc + 1) s pc' s' st (sane.canonical pc x e) ex h in
      rw q (elim (Edge-Marked pc x d walked e m edge) [
        | inr g ↦ inl g
        | inl mk ↦ inr (
          mk,
          Covers-Holds pkt (transfer x st) (slot_at slots (pc + 1 + d)) s'
              (final_slots_flow p (initial_slots p) pc x st d (pc + 1 + d) (length-initial_slots p)
                e f edge refl (omega (arith, lt_of_get_elem? marks (pc + 1 + d) mk, same)))
              k,
        )
      ])
    where
      same : length marks ≡ length p
      same = walked.same_length ∙ length-replicate (length p) false

-- A redundant load is a no-op where its slot holds.
pub redundant_noop :
    (x : Insn) (pkt : Packet) (pc : ℕ) (s : Regs) (st : AState)
    → is_redundant x st ≡ true
    → Holds pkt st s
    → exec x pkt pc s ≡ some (next pc s)
unfolding is_redundant
redundant_noop x pkt pc s st r h =
    let l : is_ld_abs x ≡ true = ground arith in
    let q : state_eq st (load x.code x.k) ≡ true = ground arith in
    let e : st ≡ load x.code x.k = (state_eq_iff st (load x.code x.k)).0 q in
    exec_of_ld_abs x pkt pc s l
    ∙ ap (λ o. o >>= λ v. some (next pc (record s { a = v }))) (subst (λ a. Holds pkt a s) e h)
