-- ===== src/Vm/Runs.antt =====
-- pktbaffle/src/vm.rs: the runs of the interpreter as a relation, without fuel; the loop ends and
-- returns what the relation says.
use pktbaffle.Prelude.{
  ℕ, zero, suc, ◌+◌, ◌-◌, ◌^◌, ◌<◌, List, ◌≡◌, ◌⊎◌, refl, sym, ap, ◌∙◌, Option, Bool, none, some,
  arith, length, get_elem?, Option-cases, inl, inr, lt_of_get_elem?,
}
use pktbaffle.Bpf.{Insn, IsTyped}
use pktbaffle.Vm.{
  Packet, Regs, next, turn, Turn, stop, go, after, exec, loop, inner, finished, verdict, init, run,
  usize_mod,
}
use pktbaffle.Vm.Control.{exec-next}

pub data Runs (p : List Insn) (pkt : Packet) : ℕ → Regs → Option Bool → Type 0 where
  stops : {pc : ℕ} {s : Regs} {r : Option Bool} → turn p pkt pc s ≡ stop r → Runs p pkt pc s r
  goes :
      {pc : ℕ} {s : Regs} {r : Option Bool} (pc' : ℕ) (s' : Regs)
      → turn p pkt pc s ≡ go pc' s'
      → Runs p pkt pc' s' r
      → Runs p pkt pc s r

-- What the field types guarantee, and fewer than 2 ^ 32 instructions.
pub record Fits (p : List Insn) : Type 0 where
  pub typed : (j : ℕ) (i : Insn) → get_elem? p j ≡ some i → IsTyped i
  pub short : length p < 2 ^ 32

pub Turn-cases :
    (t : Turn) → ((r : Option Bool) × (t ≡ stop r)) ⊎ ((pc : ℕ) × (s : Regs) × (t ≡ go pc s))
Turn-cases (stop r) = inl (r, refl)
Turn-cases (go pc s) = inr (pc, s, refl)

finished_injective : {r r' : Option Bool} → finished r ≡ finished r' → r ≡ r'
finished_injective h = cc

module _ (p : List Insn) (pkt : Packet) where
  pub Runs-stop :
      {pc : ℕ} {s : Regs} {r r' : Option Bool}
      → Runs p pkt pc s r
      → turn p pkt pc s ≡ stop r'
      → r ≡ r'
  Runs-stop (stops e) h = ground arith
  Runs-stop (goes pc' s' e w) h = cc

  pub Runs-go :
      {pc : ℕ} {s : Regs} {r : Option Bool} (pc' : ℕ) (s' : Regs)
      → Runs p pkt pc s r
      → turn p pkt pc s ≡ go pc' s'
      → Runs p pkt pc' s' r
  Runs-go pc' s' (stops e) h = cc
  Runs-go {r = r} pc' s' (goes pc₁ s₁ e w) h =
      let q : go pc₁ s₁ ≡ go pc' s' = sym e ∙ h in
      let q₁ : pc₁ ≡ pc' = cc in let q₂ : s₁ ≡ s' = cc in rw q₁ at rw q₂ at w

  -- A run has one result.
  pub Runs_unique :
      {pc : ℕ} {s : Regs} {r r' : Option Bool} → Runs p pkt pc s r → Runs p pkt pc s r' → r ≡ r'
  Runs_unique (stops e) w = sym (Runs-stop w e)
  Runs_unique (goes pc' s' e w) w' = Runs_unique w (Runs-go pc' s' w' e)

  loop-stop :
      (fuel pc : ℕ) (s : Regs) (r : Option Bool)
      → turn p pkt pc s ≡ stop r
      → loop (suc fuel) p pkt pc s ≡ finished r
  unfolding loop
  loop-stop fuel pc s r e = ground arith

  loop-go :
      (fuel pc : ℕ) (s : Regs) (pc' : ℕ) (s' : Regs)
      → turn p pkt pc s ≡ go pc' s'
      → loop (suc fuel) p pkt pc s ≡ loop fuel p pkt pc' s'
  unfolding loop
  loop-go fuel pc s pc' s' e = ground arith

  loop-Runs :
      (fuel pc : ℕ) (s : Regs) (r : Option Bool)
      → loop fuel p pkt pc s ≡ finished r
      → Runs p pkt pc s r
  unfolding loop
  loop-Runs zero pc s r h = cc
  loop-Runs (suc fuel) pc s r h = elim (Turn-cases (turn p pkt pc s)) [
    | inl (r', e) ↦ stops (e ∙ ap stop (finished_injective (sym (loop-stop fuel pc s r' e) ∙ h)))
    | inr (pc', s', e) ↦
        goes pc' s' e (loop-Runs fuel pc' s' r (sym (loop-go fuel pc s pc' s' e) ∙ h))
  ]

  pub turn-none : (pc : ℕ) (s : Regs) → get_elem? p pc ≡ none → turn p pkt pc s ≡ stop none
  unfolding turn
  turn-none pc s e = ground arith

  pub turn-some :
      (pc : ℕ) (s : Regs) (i : Insn)
      → get_elem? p pc ≡ some i
      → turn p pkt pc s ≡ after (exec i pkt (pc + 1) s)
  unfolding turn
  turn-some pc s i e = ground arith

  -- A turn that goes on comes from an instruction, and goes forward.
  pub turn-go :
      (pc : ℕ) (s : Regs) (pc' : ℕ) (s' : Regs)
      → turn p pkt pc s ≡ go pc' s'
      → (i : Insn) × (get_elem? p pc ≡ some i) × (exec i pkt (pc + 1) s ≡ some (next pc' s'))
  unfolding turn
  turn-go pc s pc' s' h = elim (Option-cases (get_elem? p pc)) [
    | inl e ↦ absurd (ground arith)
    | inr (i, e) ↦ (i, e, ground arith)
  ]

  pub turn_forward :
      Fits p
      → (pc : ℕ) (s : Regs) (pc' : ℕ) (s' : Regs) → turn p pkt pc s ≡ go pc' s'
      → (pc < length p) × (pc < pc')
  turn_forward f pc s pc' s' h =
      let (i, e, x) = turn-go pc s pc' s' h in
      let inside : pc < length p = lt_of_get_elem? p pc e in
      let t : IsTyped i = f.typed pc i e in
      let small : pc + 1 + i.k < usize_mod = omega (arith, f.short, t.k_u32) in
      (inside, omega (arith, exec-next i pkt (pc + 1) s pc' s' x small))

  loop_total :
      Fits p
      → (fuel pc : ℕ) (s : Regs) → length p - pc < fuel
      → (r : Option Bool) × (loop fuel p pkt pc s ≡ finished r)
  loop_total f zero pc s h = absurd (omega arith)
  loop_total f (suc fuel) pc s h = elim (Turn-cases (turn p pkt pc s)) [
    | inl (r, e) ↦ (r, loop-stop fuel pc s r e)
    | inr (pc', s', e) ↦
        let (inside, forward) = turn_forward f pc s pc' s' e in
        let (r, q) = loop_total f fuel pc' s' (omega arith) in (r, loop-go fuel pc s pc' s' e ∙ q)
  ]

-- On a program of `n` typed instructions, with `n` below 2 ^ 32, `inner` returns on every packet: its
-- `n + 1` turns are enough, because a jump only goes forward.
pub inner_total :
    (p : List Insn) (pkt : Packet) → Fits p → (r : Option Bool) × (inner p pkt ≡ finished r)
unfolding inner
inner_total p pkt f = loop_total p pkt f (suc (length p)) 0 init (omega arith)

pub inner-Runs :
    (p : List Insn) (pkt : Packet) (r : Option Bool)
    → inner p pkt ≡ finished r
    → Runs p pkt 0 init r
unfolding inner
inner-Runs p pkt r h = loop-Runs p pkt (suc (length p)) 0 init r h

-- A run from the entry determines what `inner` returns.
pub inner_of_Runs :
    (p : List Insn) (pkt : Packet) (r : Option Bool)
    → Fits p
    → Runs p pkt 0 init r
    → inner p pkt ≡ finished r
inner_of_Runs p pkt r f w =
    let (r', e) = inner_total p pkt f in rw (Runs_unique p pkt w (inner-Runs p pkt r' e)) e

-- Two programs with the same runs from the entry give the same verdict.
pub run_of_Runs :
    (p q : List Insn) (pkt : Packet)
    → Fits p
    → Fits q
    → ((r : Option Bool) → Runs p pkt 0 init r → Runs q pkt 0 init r)
    → run q pkt ≡ run p pkt
unfolding run
run_of_Runs p q pkt f g sim =
    let (r, e) = inner_total p pkt f in
    let e' : inner q pkt ≡ finished r = inner_of_Runs q pkt r g (sim r (inner-Runs p pkt r e)) in
    ap verdict (e' ∙ sym e)
