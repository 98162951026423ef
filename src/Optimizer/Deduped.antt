-- ===== src/Optimizer/Deduped.antt =====
-- pktbaffle/src/optimizer.rs: `dedup_loads` ends, keeps the verdict, and leaves no load beside its
-- copy.
use pktbaffle.Vm.{Packet, run}
use pktbaffle.Vm.Runs.{Fits}
use pktbaffle.Optimizer.DedupRuns.{run-removed, out-Fits}
use pktbaffle.Prelude.{
  get_elem?-lt, sym, bit_and, ℕ, zero, suc, ◌+◌, ◌≤◌, ◌<◌, ◌≡◌, inl, inr, refl, ap, ap₂, ◌∙◌, List,
  [], true, false, Option, none, some, ltb, length, get_elem?, Bool-cases, get_elem?-ge, arith,
}
use pktbaffle.Bpf.{Insn}
use pktbaffle.Optimizer.{is_ld_abs}
use pktbaffle.Optimizer.Adjust.{
  adjusted, same_load-adjusted, get_elem?-adjust_from, get_elem?-remove_at, length-remove_at,
  length-adjust_from,
}
use pktbaffle.Optimizer.Dedup.{
  adjust_from, adjust_jumps, remove_at, same_load, dedup_from, dedup_loads,
}

-- No load stands beside its copy before index `i`.
abbrev IsDeduped : ℕ → List Insn → Type 0
IsDeduped i p = (j : ℕ) → j < i → same_load (get_elem? p j) (get_elem? p (j + 1)) ≡ false

kept-IsDeduped :
    (i r : ℕ) (p : List Insn) → IsDeduped i p → IsDeduped i (adjust_from r 0 (remove_at (i + 1) p))
kept-IsDeduped i r p h j lt =
    ap₂ same_load
      (get_elem?-adjust_from r 0 (remove_at (i + 1) p) j
        ∙ ap (adjusted r (0 + j)) (get_elem?-remove_at (i + 1) j p (omega arith)))
      (get_elem?-adjust_from r 0 (remove_at (i + 1) p) (j + 1)
        ∙ ap (adjusted r (0 + (j + 1))) (get_elem?-remove_at (i + 1) (j + 1) p (omega arith)))
    ∙ same_load-adjusted r (0 + j) (0 + (j + 1)) (get_elem? p j) (get_elem? p (j + 1))
    ∙ h j lt

-- What the loop returns from a program.
abbrev Deduped : List Insn → Option (List Insn) → Type 0
Deduped p r =
    (q : List Insn) × (r ≡ some q)
    × (length q ≤ length p)
    × ((j : ℕ) → same_load (get_elem? q j) (get_elem? q (j + 1)) ≡ false)
    × ((pkt : Packet) → run q pkt ≡ run p pkt)

same_load-none : (a : Option Insn) → same_load a none ≡ false
unfolding same_load
same_load-none none = refl
same_load-none (some x) = refl

stopped-Deduped : (i : ℕ) (p : List Insn) → IsDeduped i p → length p ≤ i + 1 → Deduped p (some p)
stopped-Deduped i p h l = (
  p,
  refl,
  omega arith,
  λ j. elim (Bool-cases (ltb j i)) [
    | inl e ↦ h j (ground arith)
    | inr e ↦
        ap (same_load (get_elem? p j)) (get_elem?-ge p (j + 1) (ground arith))
        ∙ same_load-none (get_elem? p j)
  ],
  λ pkt. refl,
)

longer-Deduped :
    (p p' : List Insn) (r : Option (List Insn))
    → length p' ≤ length p
    → ((pkt : Packet) → run p' pkt ≡ run p pkt)
    → Deduped p' r
    → Deduped p r
longer-Deduped p p' r l m (q, e, k, h, v) = (q, e, omega arith, h, λ pkt. v pkt ∙ m pkt)

dedup_from-stop :
    (fuel : ℕ) (p : List Insn) (i : ℕ)
    → ltb (i + 1) (length p) ≡ false
    → dedup_from (suc fuel) p i ≡ some p
unfolding dedup_from
dedup_from-stop fuel p i e = ground arith

dedup_from-remove :
    (fuel : ℕ) (p : List Insn) (i : ℕ)
    → ltb (i + 1) (length p) ≡ true
    → same_load (get_elem? p i) (get_elem? p (i + 1)) ≡ true
    → dedup_from (suc fuel) p i ≡ dedup_from fuel (adjust_jumps (remove_at (i + 1) p) (i + 1)) i
unfolding dedup_from
dedup_from-remove fuel p i e s = ground arith

dedup_from-keep :
    (fuel : ℕ) (p : List Insn) (i : ℕ)
    → ltb (i + 1) (length p) ≡ true
    → same_load (get_elem? p i) (get_elem? p (i + 1)) ≡ false
    → dedup_from (suc fuel) p i ≡ dedup_from fuel p (i + 1)
unfolding dedup_from
dedup_from-keep fuel p i e s = ground arith

extended-IsDeduped :
    (i : ℕ) (p : List Insn)
    → IsDeduped i p
    → same_load (get_elem? p i) (get_elem? p (i + 1)) ≡ false
    → IsDeduped (i + 1) p
extended-IsDeduped i p h s j lt = elim (Bool-cases (ltb j i)) [
  | inl e ↦ h j (ground arith)
  | inr e ↦ let q : i ≡ j = ground arith in rw (← q) s
]

length-shorter :
    (i : ℕ) (p : List Insn)
    → i + 1 < length p
    → length p ≡ suc (length (adjust_jumps (remove_at (i + 1) p) (i + 1)))
unfolding adjust_jumps
length-shorter i p h =
    omega (arith, length-remove_at (i + 1) p h, length-adjust_from (i + 1) 0 (remove_at (i + 1) p))

dedup_from-Deduped :
    (fuel : ℕ) (p : List Insn) (i : ℕ)
    → Fits p
    → length p < fuel + i
    → 1 ≤ fuel
    → IsDeduped i p
    → Deduped p (dedup_from fuel p i)
unfolding adjust_jumps
dedup_from-Deduped zero p i fits l f h = absurd (omega arith)
dedup_from-Deduped (suc fuel) p i fits l f h = elim (Bool-cases (ltb (i + 1) (length p))) [
  | inr e ↦ rw (dedup_from-stop fuel p i e) (stopped-Deduped i p h (ground arith))
  | inl e ↦ elim (Bool-cases (same_load (get_elem? p i) (get_elem? p (i + 1)))) [
    | inl s ↦
        let p' = adjust_jumps (remove_at (i + 1) p) (i + 1) in
        let n : length p ≡ suc (length p') = length-shorter i p (ground arith) in
        let (c, a) = get_elem?-lt p i (ground arith) in
        let (d, b) = get_elem?-lt p (i + 1) (ground arith) in
        let t : same_load (some c) (some d) ≡ true = ap₂ same_load (sym a) (sym b) ∙ s in
        rw (dedup_from-remove fuel p i e s) (
          longer-Deduped p p' (dedup_from fuel p' i) (omega arith)
            (λ pkt. run-removed p i pkt fits c d a b t)
            (dedup_from-Deduped fuel p' i (out-Fits p i [] fits c d a b t) (omega arith)
              (ground arith) (kept-IsDeduped i (i + 1) p h)))
    | inr s ↦ rw (dedup_from-keep fuel p i e s) (
        dedup_from-Deduped fuel p (i + 1) fits (omega arith) (ground arith)
          (extended-IsDeduped i p h s))
  ]
]

-- The same absolute load twice, at an index and the next one.
abbrev pub Repeats : List Insn → ℕ → Type 0
Repeats q j =
    (x : Insn) × (y : Insn) × (get_elem? q j ≡ some x)
    × (get_elem? q (j + 1) ≡ some y)
    × (bit_and x.code 0xe7 ≡ 0x20)
    × (x.code ≡ y.code)
    × (x.k ≡ y.k)

same_load-Repeats :
    (q : List Insn) (j : ℕ)
    → same_load (get_elem? q j) (get_elem? q (j + 1)) ≡ false
    → ¬ (Repeats q j)
unfolding same_load is_ld_abs
same_load-Repeats q j h (x, y, a, b, m, c, k) =
    let t : same_load (some x) (some y) ≡ false = ap₂ same_load (sym a) (sym b) ∙ h in ground arith

-- On a program of typed instructions, fewer than 2 ^ 32, `dedup_loads` returns a program that gives the
-- same verdict on every packet, is no longer, and in which no absolute load stands directly before the
-- same load.
pub dedup_loads-run :
    (p : List Insn)
    → Fits p
    → (q : List Insn) × (dedup_loads p ≡ some q)
      × ((pkt : Packet) → run q pkt ≡ run p pkt)
      × (length q ≤ length p)
      × ((j : ℕ) → ¬ (Repeats q j))
unfolding dedup_loads
dedup_loads-run p fits =
    let (q, e, l, h, v) =
      dedup_from-Deduped (suc (length p)) p 0 fits (omega arith) (omega arith)
        (λ j lt. absurd (omega arith)) in
    (q, e, v, l, λ j. same_load-Repeats q j (h j))
