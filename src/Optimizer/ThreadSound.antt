-- ===== src/Optimizer/ThreadSound.antt =====
-- pktbaffle/src/optimizer.rs: every run of a program is a run of the threaded program.
use pktbaffle.Prelude.{
  ℕ, zero, suc, ◌+◌, ◌-◌, ◌<◌, ◌≡◌, ◌⊎◌, inl, inr, refl, sym, ap, ◌∙◌, Bool, true, false, some,
  none, Option, if◌then◌else◌, ◌>>=◌, arith, List, get_elem?, length, Option-cases, lt_of_get_elem?,
}
use pktbaffle.Bpf.{Insn}
use pktbaffle.Vm.{Packet, Regs, next, taken, uses_x, turn, Turn, stop, go, after, init, run}
use pktbaffle.Vm.Runs.{
  Runs, stops, goes, Runs-go, Runs-stop, turn-none, turn-some, Turn-cases, turn_forward,
  run_of_Runs,
}
use pktbaffle.Optimizer.{is_ja, is_cond_jump, final_target, thread_insn, thread_jumps}
use pktbaffle.Optimizer.Decode.{
  Kind, a_ret, a_ja, a_cond, a_straight, classify, exec_of_cond, ret_no_jump,
}
use pktbaffle.Optimizer.Sane.{IsSane}
use pktbaffle.Optimizer.Thread.{turn_ja, chase_entry, thread_insn_plain, thread_insn_cond, narrowed}
use pktbaffle.Optimizer.ThreadRuns.{
  fin, get_thread, get_thread_none, fin_ge, threaded_ja_target, is_ja-thread_insn,
  is_cond-thread_insn, thread_jumps-IsSane,
}

-- The turn of a conditional jump.
abbrev pub after_taken : ℕ → Insn → Regs → Option Bool → Turn
after_taken pc x s none = stop none
after_taken pc x s (some t) = go (pc + (if t then x.jt else x.jf)) s

pub turn_cond :
    (p : List Insn) (pkt : Packet) (pc : ℕ) (s : Regs) (x : Insn)
    → get_elem? p pc ≡ some x
    → is_cond_jump x ≡ true
    → turn p pkt pc s ≡ after_taken (pc + 1) x s (taken x s)
turn_cond p pkt pc s x e c =
    turn-some p pkt pc s x e ∙ ap after (exec_of_cond x pkt (pc + 1) s c) ∙ flat (taken x s)
  where
    flat :
        (o : Option Bool)
        → after (o >>= λ t. some (next (pc + 1 + (if t then x.jt else x.jf)) s))
          ≡ after_taken (pc + 1) x s o
    flat none = refl
    flat (some t) = refl

taken-thread_insn :
    (fin : List ℕ) (i : ℕ) (x : Insn) (s : Regs)
    → is_ja x ≡ false
    → is_cond_jump x ≡ true
    → taken (thread_insn fin i x) s ≡ taken x s
unfolding taken uses_x
taken-thread_insn fin i x s j c = rw (thread_insn_cond fin i x j c) refl

-- Where a taken or an untaken branch of the threaded jump leads.
branch_target :
    (p : List Insn) (i : ℕ) (x : Insn) (t : Bool)
    → is_ja x ≡ false
    → is_cond_jump x ≡ true
    → let old : ℕ = i + 1 + (if t then x.jt else x.jf) in
      let y : Insn = thread_insn (fin p) i x in
      let new : ℕ = i + 1 + (if t then y.jt else y.jf) in
      (new ≡ final_target (fin p) old) ⊎ (new ≡ old)
branch_target p i x true j c =
    rw (thread_insn_cond (fin p) i x j c) (
      narrowed i (final_target (fin p) (i + 1 + x.jt)) x.jt
        (omega (arith, fin_ge p (i + 1 + x.jt))))
branch_target p i x false j c =
    rw (thread_insn_cond (fin p) i x j c) (
      narrowed i (final_target (fin p) (i + 1 + x.jf)) x.jf
        (omega (arith, fin_ge p (i + 1 + x.jf))))

module _ (p : List Insn) (pkt : Packet) (sane : IsSane p) where
  final_run :
      (t : ℕ) (s : Regs) {r : Option Bool}
      → Runs p pkt t s r
      → Runs p pkt (final_target (fin p) t) s r
  unfolding fin
  final_run t s w = chase_entry p pkt sane.fits t s w

  module _ (pc : ℕ) (s : Regs) (r : Option Bool) (w : Runs p pkt pc s r)
      (later : (t : ℕ) (s' : Regs)
        → pc < t
        → Runs p pkt t s' r
        → Runs (thread_jumps p) pkt t s' r) where
    same_turn : turn (thread_jumps p) pkt pc s ≡ turn p pkt pc s → Runs (thread_jumps p) pkt pc s r
    same_turn same = elim (Turn-cases (turn p pkt pc s)) [
      | inl (r', e) ↦ rw (Runs-stop p pkt w e) (stops (same ∙ e))
      | inr (pc', s', e) ↦
          goes pc' s' (same ∙ e)
            (later pc' s' (turn_forward p pkt sane.fits pc s pc' s' e).1 (Runs-go p pkt pc' s' w e))
    ]

    -- The same registers at a later place, or at its final target.
    at_target :
        (old new : ℕ)
        → (new ≡ final_target (fin p) old) ⊎ (new ≡ old)
        → pc < old
        → Runs p pkt old s r
        → Runs (thread_jumps p) pkt new s r
    at_target old new (inl e) h v =
        rw e (later (final_target (fin p) old) s (omega (arith, fin_ge p old)) (final_run old s v))
    at_target old new (inr e) h v = rw e (later old s h v)

    module _ (x : Insn) (e : get_elem? p pc ≡ some x) where
      plain : is_ja x ≡ false → is_cond_jump x ≡ false → Runs (thread_jumps p) pkt pc s r
      plain j c =
          let y = thread_insn_plain (fin p) pc x j c in
          same_turn (
            turn-some (thread_jumps p) pkt pc s x (get_thread p pc x e ∙ ap some y)
            ∙ sym (turn-some p pkt pc s x e))

      ja : is_ja x ≡ true → Runs (thread_jumps p) pkt pc s r
      ja j =
          let t = pc + 1 + x.k in
          let y = thread_insn (fin p) pc x in
          let v : Runs p pkt t s r = Runs-go p pkt t s w (turn_ja p pkt sane.fits pc s x e j) in
          goes (pc + 1 + y.k) s
            (turn_ja (thread_jumps p) pkt (thread_jumps-IsSane p sane).fits pc s y
              (get_thread p pc x e) (is_ja-thread_insn (fin p) pc x ∙ j))
            (at_target t (pc + 1 + y.k) (inl (threaded_ja_target p sane pc x e j)) (omega arith) v)

      cond_jump : is_ja x ≡ false → is_cond_jump x ≡ true → Runs (thread_jumps p) pkt pc s r
      cond_jump j c =
          let y = thread_insn (fin p) pc x in
          let here : turn p pkt pc s ≡ after_taken (pc + 1) x s (taken x s) =
            turn_cond p pkt pc s x e c in
          let there : turn (thread_jumps p) pkt pc s ≡ after_taken (pc + 1) y s (taken x s) =
            turn_cond (thread_jumps p) pkt pc s y (get_thread p pc x e)
              (is_cond-thread_insn (fin p) pc x ∙ c)
            ∙ ap (after_taken (pc + 1) y s) (taken-thread_insn (fin p) pc x s j c) in
          elim (Option-cases (taken x s)) [
            | inl q ↦
                let h : turn p pkt pc s ≡ stop none = here ∙ ap (after_taken (pc + 1) x s) q in
                rw (Runs-stop p pkt w h) (stops (there ∙ ap (after_taken (pc + 1) y s) q))
            | inr (t, q) ↦
                let old = pc + 1 + (if t then x.jt else x.jf) in
                let new = pc + 1 + (if t then y.jt else y.jf) in
                goes new s (there ∙ ap (after_taken (pc + 1) y s) q) (
                  at_target old new (branch_target p pc x t j c) (omega arith)
                    (Runs-go p pkt old s w (here ∙ ap (after_taken (pc + 1) x s) q)))
          ]

      by_kind : Kind x → Runs (thread_jumps p) pkt pc s r
      by_kind (a_ret h _) = plain (ret_no_jump x h).0 (ret_no_jump x h).1
      by_kind (a_ja _ j) = ja j
      by_kind (a_cond _ j c) = cond_jump j c
      by_kind (a_straight _ j c _) = plain j c

  simulate :
      (m pc : ℕ) (s : Regs) (r : Option Bool)
      → length p - pc < m
      → Runs p pkt pc s r
      → Runs (thread_jumps p) pkt pc s r
  simulate zero pc s r h w = absurd (omega arith)
  simulate (suc m) pc s r h w = elim (Option-cases (get_elem? p pc)) [
    | inl e ↦
        rw (Runs-stop p pkt w (turn-none p pkt pc s e))
          (stops (turn-none (thread_jumps p) pkt pc s (get_thread_none p pc e)))
    | inr (x, e) ↦
        by_kind pc s r w (λ t s' lt v. simulate m t s' r (omega (arith, lt_of_get_elem? p pc e)) v)
          x e (classify x)
  ]

  -- Every run of the program is a run of the threaded program.
  pub thread_jumps-Runs :
      (r : Option Bool) → Runs p pkt 0 init r → Runs (thread_jumps p) pkt 0 init r
  thread_jumps-Runs r w = simulate (suc (length p)) 0 init r (omega arith) w

-- Jump threading keeps the verdict of a sane program on every packet.
pub run-thread_jumps :
    (p : List Insn) (pkt : Packet) → IsSane p → run (thread_jumps p) pkt ≡ run p pkt
run-thread_jumps p pkt sane =
    run_of_Runs p (thread_jumps p) pkt sane.fits (thread_jumps-IsSane p sane).fits
      (thread_jumps-Runs p pkt sane)
