-- ===== src/Optimizer/DedupRuns.antt =====
-- pktbaffle/src/optimizer.rs: one removal of `dedup_loads` keeps the verdict on every packet.
use pktbaffle.Prelude.{
  ℕ, zero, suc, ◌+◌, ◌-◌, ◌≤◌, ◌<◌, ◌≡◌, ◌≢◌, inl, inr, refl, sym, ap, ◌∙◌, subst, Bool, true,
  false, List, Option, none, some, ltb, leb, ◌==◌, if◌then◌else◌, ◌>>=◌, length, get_elem?,
  get_elem?-ge, lt_of_get_elem?, ge_of_get_elem?, Bool-cases, Option-cases, bit_and, arith,
}
use pktbaffle.Bpf.{Insn, IsTyped, bpf_jmp}
use pktbaffle.Vm.{
  Packet, Regs, Step, next, returned, exec, taken, uses_x, sized_load, turn, Turn, stop, go, after,
  init, run,
}
use pktbaffle.Vm.Control.{class_of, exec-moved, moved, exec_straight}
use pktbaffle.Vm.Runs.{
  Runs, stops, goes, Fits, Runs-go, Runs-stop, turn-none, turn-some, Turn-cases, turn_forward,
  run_of_Runs,
}
use pktbaffle.Optimizer.{is_ja, is_cond_jump, is_ld_abs}
use pktbaffle.Optimizer.Decode.{Kind, a_ret, a_ja, a_cond, a_straight, classify, exec_of_ld_abs}
use pktbaffle.Optimizer.Thread.{turn_ja}
use pktbaffle.Optimizer.ThreadSound.{turn_cond, after_taken}
use pktbaffle.Optimizer.Dedup.{
  adjust_field, adjust_insn, adjust_from, adjust_jumps, remove_at, same_load,
}
use pktbaffle.Optimizer.Adjust.{
  adjusted, adjust_insn-ld_abs, get_elem?-adjust_from, get_elem?-remove_at, get_elem?-remove_at_ge,
  length-remove_at, length-adjust_from,
}

-- What adjusting does to an instruction, by its kind.
adjust_plain : (r i : ℕ) (x : Insn) → class_of x ≢ bpf_jmp → adjust_insn r i x ≡ x
unfolding adjust_insn
adjust_plain r i x n = ground arith

is_ja-adjust_insn : (r i : ℕ) (x : Insn) → is_ja (adjust_insn r i x) ≡ is_ja x
unfolding adjust_insn is_ja
is_ja-adjust_insn r i x = ground arith

is_cond-adjust_insn : (r i : ℕ) (x : Insn) → is_cond_jump (adjust_insn r i x) ≡ is_cond_jump x
unfolding adjust_insn is_cond_jump
is_cond-adjust_insn r i x = ground arith

taken-adjust_insn :
    (r i : ℕ) (x : Insn) (s : Regs)
    → is_cond_jump x ≡ true
    → taken (adjust_insn r i x) s ≡ taken x s
unfolding adjust_insn taken uses_x is_cond_jump
taken-adjust_insn r i x s c = ground arith

adjust_insn-IsTyped : (r i : ℕ) (x : Insn) → IsTyped x → IsTyped (adjust_insn r i x)
unfolding adjust_insn adjust_field
adjust_insn-IsTyped r i x t = ground arith

-- The index of an old index, once instruction `r` is removed: a jump to `r` lands on the one before.
abbrev pub shifted : ℕ → ℕ → ℕ
shifted r t = if leb r t then t - 1 else t

ja_shifted :
    (r pc : ℕ) (x : Insn)
    → is_ja x ≡ true
    → pc + 1 ≢ r
    → pc ≢ r
    → shifted r pc + 1 + (adjust_insn r (shifted r pc) x).k ≡ shifted r (pc + 1 + x.k)
unfolding adjust_insn is_ja
ja_shifted r pc x j n m = ground arith

cond_shifted :
    (r pc : ℕ) (x : Insn) (t : Bool)
    → is_cond_jump x ≡ true
    → pc + 1 ≢ r
    → pc ≢ r
    → let y : Insn = adjust_insn r (shifted r pc) x in
      shifted r pc + 1 + (if t then y.jt else y.jf)
      ≡ shifted r (pc + 1 + (if t then x.jt else x.jf))
unfolding adjust_insn adjust_field is_cond_jump
cond_shifted r pc x true c n m = ground arith
cond_shifted r pc x false c n m = ground arith

-- A turn of an absolute load.
abbrev after_load : ℕ → Regs → Option ℕ → Turn
after_load pc s none = stop none
after_load pc s (some v) = go pc (record s { a = v })

turn-load :
    (q : List Insn) (pkt : Packet) (pc : ℕ) (s : Regs) (x : Insn)
    → get_elem? q pc ≡ some x
    → is_ld_abs x ≡ true
    → turn q pkt pc s ≡ after_load (pc + 1) s (sized_load pkt x.k (bit_and x.code 0x18))
turn-load q pkt pc s x h l =
    turn-some q pkt pc s x h
    ∙ ap after (exec_of_ld_abs x pkt (pc + 1) s l)
    ∙ flat (sized_load pkt x.k (bit_and x.code 0x18))
  where
    flat :
        (o : Option ℕ)
        → after (o >>= λ v. some (next (pc + 1) (record s { a = v }))) ≡ after_load (pc + 1) s o
    flat none = refl
    flat (some v) = refl

same_load-parts :
    (c d : Insn)
    → same_load (some c) (some d) ≡ true
    → (is_ld_abs c ≡ true) × (is_ld_abs d ≡ true) × (c.code ≡ d.code) × (c.k ≡ d.k)
unfolding same_load
same_load-parts c d h = (ground arith, ground arith, ground arith, ground arith)

module _ (p : List Insn) (i : ℕ) (pkt : Packet) (fits : Fits p) (c d : Insn)
    (e : get_elem? p i ≡ some c) (f : get_elem? p (i + 1) ≡ some d)
    (same : same_load (some c) (some d) ≡ true) where
  abbrev pub out : List Insn
  out = adjust_from (i + 1) 0 (remove_at (i + 1) p)

  abbrev renamed : Turn → Turn
  renamed (stop r) = stop r
  renamed (go t s) = go (shifted (i + 1) t) s

  length-out : length p ≡ suc (length out)
  length-out = omega (
    arith,
    length-remove_at (i + 1) p (lt_of_get_elem? p (i + 1) f),
    length-adjust_from (i + 1) 0 (remove_at (i + 1) p),
  )

  -- An instruction of the result, other than the one removed.
  stands :
      (pc : ℕ) (x : Insn)
      → get_elem? p pc ≡ some x
      → pc ≢ i + 1
      → get_elem? out (shifted (i + 1) pc) ≡ some (adjust_insn (i + 1) (shifted (i + 1) pc) x)
  stands pc x h n = elim (Bool-cases (leb (i + 1) pc)) [
    | inl b ↦
        let q : pc ≡ suc (pc - 1) = ground arith in
        rw b (
          get_elem?-adjust_from (i + 1) 0 (remove_at (i + 1) p) (pc - 1)
          ∙ ap (adjusted (i + 1) (0 + (pc - 1))) (
              get_elem?-remove_at_ge (i + 1) (pc - 1) p (ground arith)
              ∙ ap (get_elem? p) (sym q)
              ∙ h)
          ∙ ap (λ u. some (adjust_insn (i + 1) u x)) (omega arith))
    | inr b ↦ rw b (
        get_elem?-adjust_from (i + 1) 0 (remove_at (i + 1) p) pc
        ∙ ap (adjusted (i + 1) (0 + pc)) (get_elem?-remove_at (i + 1) pc p (ground arith) ∙ h)
        ∙ ap (λ u. some (adjust_insn (i + 1) u x)) (omega arith))
  ]

  remove_at-IsTyped : (j : ℕ) (x : Insn) → get_elem? (remove_at (i + 1) p) j ≡ some x → IsTyped x
  remove_at-IsTyped j x h = elim (Bool-cases (ltb j (i + 1))) [
    | inl b ↦ fits.typed j x (sym (get_elem?-remove_at (i + 1) j p (ground arith)) ∙ h)
    | inr b ↦ fits.typed (suc j) x (sym (get_elem?-remove_at_ge (i + 1) j p (ground arith)) ∙ h)
  ]

  out-IsTyped : (j : ℕ) (y : Insn) → get_elem? out j ≡ some y → IsTyped y
  out-IsTyped j y h = elim (Option-cases (get_elem? (remove_at (i + 1) p) j)) [
    | inl n ↦ absurd (
        let q : none ≡ some y =
          sym (
            get_elem?-adjust_from (i + 1) 0 (remove_at (i + 1) p) j
            ∙ ap (adjusted (i + 1) (0 + j)) n)
          ∙ h in
        ground arith)
    | inr (x, n) ↦
        let q : some (adjust_insn (i + 1) (0 + j) x) ≡ some y =
          sym (
            get_elem?-adjust_from (i + 1) 0 (remove_at (i + 1) p) j
            ∙ ap (adjusted (i + 1) (0 + j)) n)
          ∙ h in
        let z : adjust_insn (i + 1) (0 + j) x ≡ y = ground arith in
        rw (← z) (adjust_insn-IsTyped (i + 1) (0 + j) x (remove_at-IsTyped j x n))
  ]

  pub out-Fits : Fits out
  out-Fits = record { typed = out-IsTyped; short = omega (arith, fits.short, length-out) }

  -- An instruction other than the two loads takes the same turn, in the new numbering.
  turn-other :
      (pc : ℕ) (s : Regs) (x : Insn)
      → get_elem? p pc ≡ some x
      → pc ≢ i
      → pc ≢ i + 1
      → turn out pkt (shifted (i + 1) pc) s ≡ renamed (turn p pkt pc s)
  turn-other pc s x h n m = by_kind (classify x)
    where
      new : ℕ
      new = shifted (i + 1) pc

      y : Insn
      y = adjust_insn (i + 1) new x

      before_load : pc + 1 ≢ i + 1
      before_load q = n (omega arith)

      moves_on : shifted (i + 1) (pc + 1) ≡ new + 1
      moves_on = ground arith

      straight : class_of x ≢ bpf_jmp → turn out pkt new s ≡ renamed (turn p pkt pc s)
      straight k =
          turn-some out pkt new s x (stands pc x h m ∙ ap some (adjust_plain (i + 1) new x k))
          ∙ ap after (exec-moved x pkt (pc + 1) (new + 1) s k)
          ∙ by_result (exec x pkt (pc + 1) s) refl
          ∙ ap renamed (sym (turn-some p pkt pc s x h))
        where
          by_result :
              (o : Option Step)
              → exec x pkt (pc + 1) s ≡ o
              → after (moved (new + 1) o) ≡ renamed (after o)
          by_result none q = refl
          by_result (some (returned b)) q = refl
          by_result (some (next t s')) q =
              let step : t ≡ pc + 1 = exec_straight x pkt (pc + 1) s t s' k q in
              ap (λ u. go u s') (sym (ap (shifted (i + 1)) step ∙ moves_on))

      by_test :
          (o : Option Bool)
          → is_cond_jump x ≡ true
          → after_taken (new + 1) y s o ≡ renamed (after_taken (pc + 1) x s o)
      by_test none k = refl
      by_test (some t) k = ap (λ u. go u s) (cond_shifted (i + 1) pc x t k before_load m)

      by_kind : Kind x → turn out pkt new s ≡ renamed (turn p pkt pc s)
      by_kind (a_ret k l) = straight (λ q. absurd (omega arith))
      by_kind (a_ja _ k) =
          turn_ja out pkt out-Fits new s y (stands pc x h m) (is_ja-adjust_insn (i + 1) new x ∙ k)
          ∙ ap (λ u. go u s) (ja_shifted (i + 1) pc x k before_load m)
          ∙ ap renamed (sym (turn_ja p pkt fits pc s x h k))
      by_kind (a_cond _ j k) =
          turn_cond out pkt new s y (stands pc x h m) (is_cond-adjust_insn (i + 1) new x ∙ k)
          ∙ ap (after_taken (new + 1) y s) (taken-adjust_insn (i + 1) new x s k)
          ∙ by_test (taken x s) k
          ∙ ap renamed (sym (turn_cond p pkt pc s x h k))
      by_kind (a_straight _ j k l) = straight l

  -- What the two loads read.
  abbrev read : Option ℕ
  read = sized_load pkt c.k (bit_and c.code 0x18)

  first_load : (s : Regs) → turn p pkt i s ≡ after_load (i + 1) s read
  first_load s = turn-load p pkt i s c e (same_load-parts c d same).0

  second_load : (s : Regs) → turn p pkt (i + 1) s ≡ after_load (i + 1 + 1) s read
  second_load s =
      let (l, m, q, r) = same_load-parts c d same in
      turn-load p pkt (i + 1) s d f m
      ∙ ap (λ k. after_load (i + 1 + 1) s (sized_load pkt k (bit_and d.code 0x18))) (sym r)
      ∙ ap (λ k. after_load (i + 1 + 1) s (sized_load pkt c.k (bit_and k 0x18))) (sym q)

  only_load : (s : Regs) → turn out pkt i s ≡ after_load (i + 1) s read
  only_load s =
      let (l, m, q, r) = same_load-parts c d same in
      let here : shifted (i + 1) i ≡ i = ground arith in
      turn-load out pkt i s c
        (ap (get_elem? out) (sym here)
          ∙ stands i c e (λ u. omega arith)
          ∙ ap some (adjust_insn-ld_abs (i + 1) (shifted (i + 1) i) c l))
        l

  past_end : (pc : ℕ) (s : Regs) → length p ≤ pc → turn out pkt (shifted (i + 1) pc) s ≡ stop none
  past_end pc s h =
      turn-none out pkt (shifted (i + 1) pc) s
        (get_elem?-ge out (shifted (i + 1) pc) (ground (arith, length-out)))

  onto_first : shifted (i + 1) i ≡ i
  onto_first = ground arith

  onto_second : shifted (i + 1) (i + 1) ≡ i
  onto_second = ground arith

  after_second : shifted (i + 1) (i + 1 + 1) ≡ i + 1
  after_second = ground arith

  -- At the first load the result has not loaded yet; it loads when the run comes to the second one.
  at_first :
      (s : Regs) (r : Option Bool)
      → Runs p pkt i s r
      → ((s' : Regs) → Runs p pkt (i + 1) s' r → Runs out pkt (shifted (i + 1) (i + 1)) s' r)
      → Runs out pkt i s r
  at_first s r w k = elim (Option-cases read) [
    | inl q ↦
        rw (Runs-stop p pkt w (first_load s ∙ ap (after_load (i + 1) s) q))
          (stops (only_load s ∙ ap (after_load (i + 1) s) q))
    | inr (v, q) ↦
        let s' : Regs = record s { a = v } in
        let later =
          subst (λ u. Runs out pkt u s' r) onto_second
            (k s' (Runs-go p pkt (i + 1) s' w (first_load s ∙ ap (after_load (i + 1) s) q))) in
        goes (i + 1) s' (only_load s ∙ ap (after_load (i + 1) s) q)
          (Runs-go out pkt (i + 1) s' later (only_load s' ∙ ap (after_load (i + 1) s') q))
  ]

  at_second :
      (s : Regs) (r : Option Bool)
      → Runs p pkt (i + 1) s r
      → ((s' : Regs)
          → Runs p pkt (i + 1 + 1) s' r
          → Runs out pkt (shifted (i + 1) (i + 1 + 1)) s' r)
      → Runs out pkt i s r
  at_second s r w k = elim (Option-cases read) [
    | inl q ↦
        rw (Runs-stop p pkt w (second_load s ∙ ap (after_load (i + 1 + 1) s) q))
          (stops (only_load s ∙ ap (after_load (i + 1) s) q))
    | inr (v, q) ↦
        let s' : Regs = record s { a = v } in
        goes (i + 1) s' (only_load s ∙ ap (after_load (i + 1) s) q) (
          subst (λ u. Runs out pkt u s' r) after_second
            (k s'
              (Runs-go p pkt (i + 1 + 1) s' w (second_load s ∙ ap (after_load (i + 1 + 1) s) q))))
  ]

  at_other :
      (pc : ℕ) (s : Regs) (r : Option Bool) (x : Insn)
      → get_elem? p pc ≡ some x
      → pc ≢ i
      → pc ≢ i + 1
      → Runs p pkt pc s r
      → ((t : ℕ) (s' : Regs) → pc < t → Runs p pkt t s' r → Runs out pkt (shifted (i + 1) t) s' r)
      → Runs out pkt (shifted (i + 1) pc) s r
  at_other pc s r x g a b w k = elim (Turn-cases (turn p pkt pc s)) [
    | inl (r', q) ↦ rw (Runs-stop p pkt w q) (stops (turn-other pc s x g a b ∙ ap renamed q))
    | inr (t, s', q) ↦
        goes (shifted (i + 1) t) s' (turn-other pc s x g a b ∙ ap renamed q)
          (k t s' (turn_forward p pkt fits pc s t s' q).1 (Runs-go p pkt t s' w q))
  ]

  simulate :
      (n pc : ℕ) (s : Regs) (r : Option Bool)
      → length p - pc < n
      → Runs p pkt pc s r
      → Runs out pkt (shifted (i + 1) pc) s r
  simulate zero pc s r h w = absurd (omega arith)
  simulate (suc n) pc s r h w = elim (Option-cases (get_elem? p pc)) [
    | inl g ↦
        rw (Runs-stop p pkt w (turn-none p pkt pc s g))
          (stops (past_end pc s (ge_of_get_elem? p pc g)))
    | inr (x, g) ↦
        let inside = lt_of_get_elem? p pc g in
        elim (Bool-cases (pc == i)) [
          | inl a ↦
              let q : i ≡ pc = ground arith in
              subst (λ u. Runs out pkt (shifted (i + 1) u) s r) q
                (subst (λ u. Runs out pkt u s r) (sym onto_first)
                  (at_first s r (subst (λ u. Runs p pkt u s r) (sym q) w)
                    (λ s' w'. simulate n (i + 1) s' r (omega arith) w')))
          | inr a ↦ elim (Bool-cases (pc == i + 1)) [
            | inl b ↦
                let q : i + 1 ≡ pc = ground arith in
                subst (λ u. Runs out pkt (shifted (i + 1) u) s r) q
                  (subst (λ u. Runs out pkt u s r) (sym onto_second)
                    (at_second s r (subst (λ u. Runs p pkt u s r) (sym q) w)
                      (λ s' w'. simulate n (i + 1 + 1) s' r (omega arith) w')))
            | inr b ↦
                at_other pc s r x g (λ u. absurd (ground arith)) (λ u. absurd (ground arith)) w
                  (λ t s' l w'. simulate n t s' r (omega arith) w')
          ]
        ]
  ]

  -- Removing the second of two equal loads keeps the verdict.
  pub run-removed : run (adjust_jumps (remove_at (i + 1) p) (i + 1)) pkt ≡ run p pkt
  unfolding adjust_jumps
  run-removed = run_of_Runs p out pkt fits out-Fits (λ r w.
      subst (λ u. Runs out pkt u init r) start (simulate (suc (length p)) 0 init r (omega arith) w))
    where
      start : shifted (i + 1) 0 ≡ 0
      start = ground arith
