-- ===== src/Optimizer/Sound.antt =====
-- pktbaffle/src/optimizer.rs: `remove_unkept` and `optimize` keep the verdict on every packet.
use pktbaffle.Prelude.{
  ℕ, zero, suc, ◌+◌, ◌-◌, ◌≤◌, ◌<◌, ◌≡◌, inl, inr, refl, ap, ◌∙◌, Bool, true, false, some, none,
  Option, not, ◌&&◌, ◌==◌, arith, List, [], ◌∷◌, get_elem?, length, replicate, Bool-cases,
  lt_of_get_elem?, get_elem?-ge, get_elem?-lt, length-replicate, subst,
}
use pktbaffle.Bpf.{Insn}
use pktbaffle.Vm.{Packet, Regs, turn, stop, go, after, init}
use pktbaffle.Vm.Runs.{
  Runs, stops, goes, Fits, Runs-go, Runs-stop, turn-none, turn-some, Turn-cases, turn-go,
  turn_forward,
}
use pktbaffle.Optimizer.{
  AState, is_redundant, is_ja, initial_slots, redundant_load_marks, new_index,
}
use pktbaffle.Optimizer.Sane.{IsSane}
use pktbaffle.Optimizer.Thread.{turn_ja}
use pktbaffle.Optimizer.Flow.{sweep_mark, length-sweep}
use pktbaffle.Optimizer.Reach.{Walk}
use pktbaffle.Optimizer.Remove.{kept, kept_suc, length-compact}
use pktbaffle.Optimizer.Retarget.{get_elem?-keep_marks, length-keep_marks}
use pktbaffle.Optimizer.Live.{Holds, Live, Live-init, Live-next, redundant_noop}
use pktbaffle.Optimizer.KeptTurn.{keep, out, out-Fits, renamed, turn-kept}
use pktbaffle.Optimizer.{remove_unkept, all_kept, optimize, thread_jumps, reachable_marks}
use pktbaffle.Optimizer.Reach.{reachable_marks-Walk}
use pktbaffle.Optimizer.ReachTotal.{reachable_marks_total}
use pktbaffle.Optimizer.ThreadRuns.{thread_jumps-IsSane}
use pktbaffle.Optimizer.ThreadSound.{run-thread_jumps}
use pktbaffle.Vm.{run}
use pktbaffle.Vm.Runs.{run_of_Runs}

-- What a dropped instruction does: nothing.
dropped_turn :
    (p : List Insn) (pkt : Packet) (fits : Fits p) (pc : ℕ) (s : Regs) (x : Insn) (st : AState)
    → get_elem? p pc ≡ some x
    → Holds pkt st s
    → (true && not (is_redundant x st) && not (is_ja x && x.k == 0)) ≡ false
    → turn p pkt pc s ≡ go (pc + 1) s
dropped_turn p pkt fits pc s x st e h d = elim (Bool-cases (is_redundant x st)) [
  | inl r ↦ turn-some p pkt pc s x e ∙ ap after (redundant_noop x pkt (pc + 1) s st r h)
  | inr r ↦
      let j : is_ja x ≡ true = ground arith in
      let z : x.k ≡ 0 = ground arith in
      turn_ja p pkt fits pc s x e j ∙ ap (λ u. go u s) (omega arith)
]

module _ (p : List Insn) (pkt : Packet) (sane : IsSane p) (marks : List Bool)
    (walked : Walk p (0 ∷ []) (replicate (length p) false) marks) where
  length-marks : length marks ≡ length p
  length-marks = walked.same_length ∙ length-replicate (length p) false

  length-keep : length (keep p marks) ≡ length p
  length-keep =
      length-keep_marks p marks (redundant_load_marks p) length-marks
        (unfold redundant_load_marks in length-sweep p (initial_slots p))

  -- The verdict of a run that has left the program.
  past_end :
      (pc : ℕ) (s : Regs)
      → length p ≤ pc
      → turn (out p marks) pkt (kept (keep p marks) pc) s ≡ stop none
  past_end pc s h = turn-none (out p marks) pkt (kept (keep p marks) pc) s (
      get_elem?-ge (out p marks) (kept (keep p marks) pc) (
        omega (
          arith,
          length-compact (new_index 0 (keep p marks)) 0 p (keep p marks) pc length-keep
              (omega (arith, length-keep)),
        )))

  simulate :
      (m pc : ℕ) (s : Regs) (r : Option Bool)
      → length p - pc < m
      → Runs p pkt pc s r
      → Live p pkt sane marks walked pc s
      → Runs (out p marks) pkt (kept (keep p marks) pc) s r
  simulate zero pc s r h w live = absurd (omega arith)
  simulate (suc m) pc s r h w (inl g) =
      rw (Runs-stop p pkt w (turn-none p pkt pc s (get_elem?-ge p pc g))) (stops (past_end pc s g))
  simulate (suc m) pc s r h w (inr (mk, (st, f, holds))) =
      let inside : pc < length p = omega (arith, length-marks, lt_of_get_elem? marks pc mk) in
      let (x, e) = get_elem?-lt p pc inside in
      let mark : get_elem? (keep p marks) pc
          ≡ some (true && not (is_redundant x st) && not (is_ja x && x.k == 0)) =
        get_elem?-keep_marks p marks (redundant_load_marks p) pc x true (is_redundant x st) e mk
          (unfold redundant_load_marks in sweep_mark p (initial_slots p) pc x st e f) in
      let later = λ (t : ℕ) (s' : Regs) (q : turn p pkt pc s ≡ go t s').
        let (i, e', ex) = turn-go p pkt pc s t s' q in
        simulate m t s' r (omega (arith, (turn_forward p pkt sane.fits pc s t s' q).1))
          (Runs-go p pkt t s' w q)
          (Live-next p pkt sane marks walked pc s i st t s' e' mk f holds ex) in
      elim (Bool-cases (true && not (is_redundant x st) && not (is_ja x && x.k == 0))) [
        | inl k ↦
            let here = mark ∙ ap some k in
            let same = turn-kept p pkt sane marks pc s x e here in
            elim (Turn-cases (turn p pkt pc s)) [
              | inl (r', q) ↦ rw (Runs-stop p pkt w q) (stops (same ∙ ap (renamed p marks) q))
              | inr (t, s', q) ↦
                  goes (kept (keep p marks) t) s' (same ∙ ap (renamed p marks) q) (later t s' q)
            ]
        | inr k ↦
            let q = dropped_turn p pkt sane.fits pc s x st e holds k in
            let stays : kept (keep p marks) (pc + 1) ≡ kept (keep p marks) pc =
              omega (arith, kept_suc (keep p marks) pc (pc + 1) false refl (mark ∙ ap some k)) in
            rw (← stays) (later (pc + 1) s q)
      ]

  compact-Runs : (r : Option Bool) → Runs p pkt 0 init r → Runs (out p marks) pkt 0 init r
  compact-Runs r w =
      subst (λ u. Runs (out p marks) pkt u init r) (start (keep p marks))
        (simulate (suc (length p)) 0 init r (omega arith) w (Live-init p pkt sane marks walked))
    where
      start : (ks : List Bool) → kept ks 0 ≡ 0
      start [] = refl
      start (_ ∷ _) = refl

  run-remove_unkept : run (remove_unkept p (keep p marks)) pkt ≡ run p pkt
  unfolding remove_unkept
  run-remove_unkept = elim (Bool-cases (all_kept (keep p marks))) [
    | inl all ↦ rw all refl
    | inr some_dropped ↦
        rw some_dropped
          (run_of_Runs p (out p marks) pkt sane.fits (out-Fits p marks sane.fits) compact-Runs)
  ]

-- The result of `optimize`, once the walk has ended.
optimize_result :
    (p : List Insn) (marks : List Bool)
    → reachable_marks (thread_jumps p) ≡ some marks
    → optimize p ≡ some (remove_unkept (thread_jumps p) (keep (thread_jumps p) marks))
unfolding optimize
optimize_result p marks e = ground arith

-- For every sane program `optimize` returns a program that gives the same verdict on every packet.
pub optimize-run :
    (p : List Insn)
    → IsSane p
    → (q : List Insn) × (optimize p ≡ some q) × ((pkt : Packet) → run q pkt ≡ run p pkt)
optimize-run p sane =
    let (marks, e) = reachable_marks_total (thread_jumps p) in
    let walked = reachable_marks-Walk (thread_jumps p) marks e in
    (
      remove_unkept (thread_jumps p) (keep (thread_jumps p) marks),
      optimize_result p marks e,
      λ pkt.
          run-remove_unkept (thread_jumps p) pkt (thread_jumps-IsSane p sane) marks walked
          ∙ run-thread_jumps p pkt sane,
    )
