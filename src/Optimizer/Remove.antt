-- ===== src/Optimizer/Remove.antt =====
-- pktbaffle/src/optimizer.rs: the renumbering of `remove_unkept`.
use native.Mathlib.Nat.{zero-add}
use pktbaffle.Prelude.{
  ℕ, zero, suc, ◌+◌, ◌-◌, ◌≤◌, ◌<◌, ◌≡◌, refl, ap, min, Bool, true, false, some, if◌then◌else◌,
  arith, List, [], ◌∷◌, get_elem?, length, lt_of_get_elem?,
}
use pktbaffle.Bpf.{Insn, IsTyped}
use pktbaffle.Optimizer.{new_index, index_at, new_offset, retarget, compact}

one-add : (n : ℕ) → 1 + n ≡ suc n
one-add n = omega arith

-- The number of kept instructions before an index.
abbrev pub kept : List Bool → ℕ → ℕ
kept [] t = 0
kept (k ∷ keep) zero = 0
kept (k ∷ keep) (suc t) = (if k then 1 else 0) + kept keep t

length-new_index : (c : ℕ) (keep : List Bool) → length (new_index c keep) ≡ suc (length keep)
unfolding new_index
length-new_index c [] = refl
length-new_index c (k ∷ keep) = ap suc (length-new_index (c + (if k then 1 else 0)) keep)

index_at-new_index :
    (c : ℕ) (keep : List Bool) (t : ℕ)
    → t ≤ length keep
    → index_at (new_index c keep) t ≡ c + kept keep t
unfolding new_index
index_at-new_index c [] zero h = omega arith
index_at-new_index c [] (suc t) h = absurd (omega arith)
index_at-new_index c (k ∷ keep) zero h = omega arith
index_at-new_index c (k ∷ keep) (suc t) h =
    omega (arith, index_at-new_index (c + (if k then 1 else 0)) keep t (omega arith))

kept_zero : (keep : List Bool) → kept keep 0 ≡ 0
kept_zero [] = refl
kept_zero (_ ∷ _) = refl

kept_clamped : (keep : List Bool) (t m : ℕ) → m ≡ min t (length keep) → kept keep m ≡ kept keep t
kept_clamped [] t m e = refl
kept_clamped (k ∷ keep) zero zero e = refl
kept_clamped (k ∷ keep) zero (suc m) e = absurd (omega arith)
kept_clamped (k ∷ keep) (suc t) zero e = absurd (omega arith)
kept_clamped (k ∷ keep) (suc t) (suc m) e = omega (arith, kept_clamped keep t m (omega arith))

pub kept_mono : (keep : List Bool) (i t : ℕ) → i ≤ t → kept keep i ≤ kept keep t
kept_mono [] i t h = omega arith
kept_mono (k ∷ keep) zero t h = omega arith
kept_mono (k ∷ keep) (suc i) zero h = absurd (omega arith)
kept_mono (k ∷ keep) (suc i) (suc t) h = omega (arith, kept_mono keep i t (omega arith))

-- Offsets only shrink.
pub kept_shrinks : (keep : List Bool) (i t : ℕ) → i ≤ t → kept keep t ≤ kept keep i + (t - i)
kept_shrinks [] i t h = omega arith
kept_shrinks (k ∷ keep) zero zero h = omega arith
kept_shrinks (k ∷ keep) zero (suc t) h =
    ground (arith, kept_shrinks keep 0 t (omega arith), kept_zero keep)
kept_shrinks (k ∷ keep) (suc i) zero h = absurd (omega arith)
kept_shrinks (k ∷ keep) (suc i) (suc t) h = omega (arith, kept_shrinks keep i t (omega arith))

-- The new index moves on by one after a kept instruction, and stays after a dropped one.
pub kept_suc :
    (keep : List Bool) (i t : ℕ) (k : Bool)
    → t ≡ i + 1
    → get_elem? keep i ≡ some k
    → kept keep t ≡ kept keep i + (if k then 1 else 0)
kept_suc [] i t k e h = cc
kept_suc (b ∷ keep) i zero k e h = absurd (omega arith)
kept_suc (b ∷ keep) zero (suc t) k e h =
    let z : t ≡ 0 = omega arith in
    let q : b ≡ k = ground arith in rw (z, q) (omega (arith, kept_zero keep))
kept_suc (b ∷ keep) (suc i) (suc t) k e h = omega (arith, kept_suc keep i t k (omega arith) h)

-- An offset in the new numbering, at a kept instruction: no subtraction of the source goes below 0.
pub new_offset_lem :
    (keep : List Bool) (i t : ℕ)
    → get_elem? keep i ≡ some true
    → i < t
    → kept keep i + 1 + new_offset (new_index 0 keep) i t ≡ kept keep t
unfolding new_offset
new_offset_lem keep i t h lt =
    let inside : i < length keep = lt_of_get_elem? keep i h in
    let len = length-new_index 0 keep in
    let m : ℕ = min t (length (new_index 0 keep) - 1) in
    omega (
      arith,
      index_at-new_index 0 keep m (omega arith),
      index_at-new_index 0 keep i (omega arith),
      kept_clamped keep t m (omega arith),
      kept_suc keep i (i + 1) true refl h,
      kept_mono keep (i + 1) t (omega arith),
    )

pub new_offset-le :
    (keep : List Bool) (i t : ℕ)
    → get_elem? keep i ≡ some true
    → i < t
    → new_offset (new_index 0 keep) i t ≤ t - i - 1
new_offset-le keep i t h lt = omega (
  arith,
  new_offset_lem keep i t h lt,
  kept_suc keep i (i + 1) true refl h,
  kept_shrinks keep (i + 1) t (omega arith),
)

-- A kept instruction stands at its new index, retargeted.
pub get_elem?-compact :
    (index : List ℕ) (i : ℕ) (xs : List Insn) (keep : List Bool) (j t : ℕ) (x : Insn)
    → t ≡ i + j
    → get_elem? keep j ≡ some true
    → get_elem? xs j ≡ some x
    → get_elem? (compact index i xs keep) (kept keep j) ≡ some (retarget index t x)
unfolding compact
get_elem?-compact index i [] keep j t x e k g = cc
get_elem?-compact index i (y ∷ ys) [] j t x e k g = cc
get_elem?-compact index i (y ∷ ys) (b ∷ keep) zero t x e k g =
    let q : b ≡ true = ground arith in
    let yx : y ≡ x = ground arith in let it : i ≡ t = omega arith in rw (q, yx, it) refl
get_elem?-compact index i (y ∷ ys) (true ∷ keep) (suc j) t x e k g =
    rw (one-add (kept keep j)) (get_elem?-compact index (i + 1) ys keep j t x (omega arith) k g)
get_elem?-compact index i (y ∷ ys) (false ∷ keep) (suc j) t x e k g =
    rw (zero-add (kept keep j)) (get_elem?-compact index (i + 1) ys keep j t x (omega arith) k g)

-- The result has one instruction for each kept one.
pub length-compact :
    (index : List ℕ) (i : ℕ) (xs : List Insn) (keep : List Bool) (n : ℕ)
    → length keep ≡ length xs
    → length keep ≤ n
    → length (compact index i xs keep) ≡ kept keep n
unfolding compact
length-compact index i [] [] n e h = refl
length-compact index i [] (k ∷ keep) n e h = absurd (omega arith)
length-compact index i (x ∷ xs) [] n e h = absurd (omega arith)
length-compact index i (x ∷ xs) (k ∷ keep) zero e h = absurd (omega arith)
length-compact index i (x ∷ xs) (true ∷ keep) (suc n) e h =
    omega (arith, length-compact index (i + 1) xs keep n (omega arith) (omega arith))
length-compact index i (x ∷ xs) (false ∷ keep) (suc n) e h =
    omega (arith, length-compact index (i + 1) xs keep n (omega arith) (omega arith))

retarget-IsTyped : (index : List ℕ) (i : ℕ) (x : Insn) → IsTyped x → IsTyped (retarget index i x)
unfolding retarget
retarget-IsTyped index i x t = ground arith

-- The instructions of the result have the field types of the source.
pub compact-IsTyped :
    (index : List ℕ) (i : ℕ) (xs : List Insn) (keep : List Bool)
    → ((j : ℕ) (x : Insn) → get_elem? xs j ≡ some x → IsTyped x)
    → (j : ℕ) (y : Insn) → get_elem? (compact index i xs keep) j ≡ some y
    → IsTyped y
unfolding compact
compact-IsTyped index i [] keep typed j y g = cc
compact-IsTyped index i (x ∷ xs) [] typed j y g = cc
compact-IsTyped index i (x ∷ xs) (true ∷ keep) typed zero y g =
    let q : retarget index i x ≡ y = ground arith in
    rw (← q) (retarget-IsTyped index i x (typed 0 x refl))
compact-IsTyped index i (x ∷ xs) (true ∷ keep) typed (suc j) y g =
    compact-IsTyped index (i + 1) xs keep (λ m z e. typed (suc m) z e) j y g
compact-IsTyped index i (x ∷ xs) (false ∷ keep) typed j y g =
    compact-IsTyped index (i + 1) xs keep (λ m z e. typed (suc m) z e) j y g

pub length-compact-le :
    (index : List ℕ) (i : ℕ) (xs : List Insn) (keep : List Bool)
    → length (compact index i xs keep) ≤ length xs
unfolding compact
length-compact-le index i [] keep = omega arith
length-compact-le index i (x ∷ xs) [] = omega arith
length-compact-le index i (x ∷ xs) (true ∷ keep) =
    omega (arith, length-compact-le index (i + 1) xs keep)
length-compact-le index i (x ∷ xs) (false ∷ keep) =
    omega (arith, length-compact-le index (i + 1) xs keep)
