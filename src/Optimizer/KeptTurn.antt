-- ===== src/Optimizer/KeptTurn.antt =====
-- pktbaffle/src/optimizer.rs: an instruction that `remove_unkept` keeps takes the same turn in the new
-- numbering.
use pktbaffle.Prelude.{
  ℕ, ◌+◌, ◌≡◌, ◌≢◌, refl, sym, ap, ◌∙◌, Bool, true, false, some, none, Option, arith, List,
  get_elem?,
}
use pktbaffle.Bpf.{Insn, bpf_jmp}
use pktbaffle.Vm.{Packet, Regs, Step, next, returned, exec, taken, turn, Turn, stop, go, after}
use pktbaffle.Vm.Control.{class_of, exec-moved, moved, exec_straight}
use pktbaffle.Vm.Runs.{Fits, turn-some}
use pktbaffle.Optimizer.{
  is_ja, is_cond_jump, redundant_load_marks, keep_marks, new_index, retarget, compact,
}
use pktbaffle.Optimizer.Decode.{Kind, a_ret, a_ja, a_cond, a_straight, classify, ret_no_jump}
use pktbaffle.Optimizer.Sane.{IsSane}
use pktbaffle.Optimizer.Thread.{turn_ja}
use pktbaffle.Optimizer.ThreadSound.{turn_cond, after_taken}
use pktbaffle.Optimizer.Remove.{
  kept, kept_suc, get_elem?-compact, compact-IsTyped, length-compact-le,
}
use pktbaffle.Optimizer.Retarget.{
  retarget_plain, is_ja-retarget, is_cond-retarget, taken-retarget, ja_target, cond_target,
}

module _ (p : List Insn) (marks : List Bool) where
  abbrev pub keep : List Bool
  keep = keep_marks p marks (redundant_load_marks p)

  abbrev pub out : List Insn
  out = compact (new_index 0 keep) 0 p keep

  -- A turn of the program, in the new numbering.
  abbrev pub renamed : Turn → Turn
  renamed (stop r) = stop r
  renamed (go t s) = go (kept keep t) s

  pub out-Fits : Fits p → Fits out
  out-Fits f = record {
    typed = compact-IsTyped (new_index 0 keep) 0 p keep f.typed;
    short = omega (arith, f.short, length-compact-le (new_index 0 keep) 0 p keep);
  }

module _ (p : List Insn) (pkt : Packet) (sane : IsSane p) (marks : List Bool) (pc : ℕ) (s : Regs)
    (x : Insn) (e : get_elem? p pc ≡ some x) (here : get_elem? (keep p marks) pc ≡ some true) where
  abbrev y : Insn
  y = retarget (new_index 0 (keep p marks)) pc x

  y_stands : get_elem? (out p marks) (kept (keep p marks) pc) ≡ some y
  y_stands =
      get_elem?-compact (new_index 0 (keep p marks)) 0 p (keep p marks) pc pc x (omega arith) here e

  straight :
      is_ja x ≡ false
      → is_cond_jump x ≡ false
      → class_of x ≢ bpf_jmp
      → turn (out p marks) pkt (kept (keep p marks) pc) s ≡ renamed p marks (turn p pkt pc s)
  straight j c n =
      turn-some (out p marks) pkt new s x
        (y_stands ∙ ap some (retarget_plain (new_index 0 (keep p marks)) pc x j c))
      ∙ ap after (exec-moved x pkt (pc + 1) (new + 1) s n)
      ∙ by_result (exec x pkt (pc + 1) s) refl
      ∙ ap (renamed p marks) (sym (turn-some p pkt pc s x e))
    where
      new : ℕ
      new = kept (keep p marks) pc

      by_result :
          (o : Option Step)
          → exec x pkt (pc + 1) s ≡ o
          → after (moved (new + 1) o) ≡ renamed p marks (after o)
      by_result none q = refl
      by_result (some (returned b)) q = refl
      by_result (some (next t s')) q =
          let step : t ≡ pc + 1 = exec_straight x pkt (pc + 1) s t s' n q in
          ap (λ u. go u s') (sym (kept_suc (keep p marks) pc t true step here))

  ja :
      is_ja x ≡ true
      → turn (out p marks) pkt (kept (keep p marks) pc) s ≡ renamed p marks (turn p pkt pc s)
  ja j =
      turn_ja (out p marks) pkt (out-Fits p marks sane.fits) (kept (keep p marks) pc) s y y_stands
        (is_ja-retarget (new_index 0 (keep p marks)) pc x ∙ j)
      ∙ ap (λ u. go u s) (ja_target (keep p marks) pc x here j (sane.lands pc x e j))
      ∙ ap (renamed p marks) (sym (turn_ja p pkt sane.fits pc s x e j))

  cond_jump :
      is_ja x ≡ false
      → is_cond_jump x ≡ true
      → turn (out p marks) pkt (kept (keep p marks) pc) s ≡ renamed p marks (turn p pkt pc s)
  cond_jump j c =
      turn_cond (out p marks) pkt (kept (keep p marks) pc) s y y_stands
        (is_cond-retarget (new_index 0 (keep p marks)) pc x ∙ c)
      ∙ ap (after_taken (kept (keep p marks) pc + 1) y s)
          (taken-retarget (new_index 0 (keep p marks)) pc x s j c)
      ∙ by_test (taken x s)
      ∙ ap (renamed p marks) (sym (turn_cond p pkt pc s x e c))
    where
      by_test :
          (o : Option Bool)
          → after_taken (kept (keep p marks) pc + 1) y s o
            ≡ renamed p marks (after_taken (pc + 1) x s o)
      by_test none = refl
      by_test (some t) =
          ap (λ u. go u s) (cond_target (keep p marks) pc x here t j c (sane.fits.typed pc x e))

  -- A kept instruction takes the same turn, in the new numbering.
  pub turn-kept :
      turn (out p marks) pkt (kept (keep p marks) pc) s ≡ renamed p marks (turn p pkt pc s)
  turn-kept = by_kind (classify x)
    where
      by_kind :
          Kind x
          → turn (out p marks) pkt (kept (keep p marks) pc) s ≡ renamed p marks (turn p pkt pc s)
      by_kind (a_ret h c) =
          straight (ret_no_jump x h).0 (ret_no_jump x h).1 (λ n. absurd (omega arith))
      by_kind (a_ja _ j) = ja j
      by_kind (a_cond _ j c) = cond_jump j c
      by_kind (a_straight _ j c n) = straight j c n
