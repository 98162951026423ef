-- ===== src/Optimizer/Adjust.antt =====
-- pktbaffle/src/optimizer.rs: one removal of `dedup_loads`, element by element.
use pktbaffle.Prelude.{
  ℕ, zero, suc, ◌+◌, ◌≤◌, ◌<◌, ◌≡◌, refl, ap, ◌∙◌, List, [], ◌∷◌, true, Option, none, some, length,
  get_elem?, arith,
}
use pktbaffle.Prelude.Bits.{class_mask, class_mode_mask}
use pktbaffle.Bpf.{Insn}
use pktbaffle.Optimizer.{is_ld_abs}
use pktbaffle.Optimizer.Dedup.{adjust_insn, adjust_from, remove_at, same_load}

pub adjust_insn-code : (r s : ℕ) (x : Insn) → (adjust_insn r s x).code ≡ x.code
unfolding adjust_insn
adjust_insn-code r s x = ground arith

pub adjust_insn-ld_abs : (r s : ℕ) (x : Insn) → is_ld_abs x ≡ true → adjust_insn r s x ≡ x
unfolding adjust_insn is_ld_abs
adjust_insn-ld_abs r s x h = ground (arith, class_mask x.code, class_mode_mask x.code)

pub is_ld_abs-adjust_insn : (r s : ℕ) (x : Insn) → is_ld_abs (adjust_insn r s x) ≡ is_ld_abs x
unfolding is_ld_abs
is_ld_abs-adjust_insn r s x = rw (adjust_insn-code r s x) refl

abbrev pub adjusted : ℕ → ℕ → Option Insn → Option Insn
adjusted r s none = none
adjusted r s (some x) = some (adjust_insn r s x)

pub same_load-adjusted :
    (r s t : ℕ) (a b : Option Insn) → same_load (adjusted r s a) (adjusted r t b) ≡ same_load a b
unfolding same_load
same_load-adjusted r s t none b = refl
same_load-adjusted r s t (some x) none = refl
same_load-adjusted r s t (some x) (some y) = ground (
  arith,
  is_ld_abs-adjust_insn r s x,
  is_ld_abs-adjust_insn r t y,
  adjust_insn-ld_abs r s x,
  adjust_insn-ld_abs r t y,
)

pub get_elem?-adjust_from :
    (r s : ℕ) (xs : List Insn) (j : ℕ)
    → get_elem? (adjust_from r s xs) j ≡ adjusted r (s + j) (get_elem? xs j)
unfolding adjust_from
get_elem?-adjust_from r s [] j = refl
get_elem?-adjust_from r s (x ∷ xs) zero = ap (λ k. some (adjust_insn r k x)) (omega arith)
get_elem?-adjust_from r s (x ∷ xs) (suc j) =
    get_elem?-adjust_from r (s + 1) xs j ∙ ap (λ k. adjusted r k (get_elem? xs j)) (omega arith)

pub get_elem?-remove_at :
    (i j : ℕ) (xs : List Insn) → j < i → get_elem? (remove_at i xs) j ≡ get_elem? xs j
unfolding remove_at
get_elem?-remove_at i j [] h = refl
get_elem?-remove_at zero j (x ∷ xs) h = absurd (omega arith)
get_elem?-remove_at (suc i) zero (x ∷ xs) h = refl
get_elem?-remove_at (suc i) (suc j) (x ∷ xs) h = get_elem?-remove_at i j xs (omega arith)

pub length-remove_at :
    (i : ℕ) (xs : List Insn) → i < length xs → length xs ≡ suc (length (remove_at i xs))
unfolding remove_at
length-remove_at i [] h = absurd (omega arith)
length-remove_at zero (x ∷ xs) h = refl
length-remove_at (suc i) (x ∷ xs) h = ap suc (length-remove_at i xs (omega arith))

pub length-adjust_from : (r s : ℕ) (xs : List Insn) → length (adjust_from r s xs) ≡ length xs
unfolding adjust_from
length-adjust_from r s [] = refl
length-adjust_from r s (x ∷ xs) = ap suc (length-adjust_from r (s + 1) xs)

pub get_elem?-remove_at_ge :
    (i j : ℕ) (xs : List Insn) → i ≤ j → get_elem? (remove_at i xs) j ≡ get_elem? xs (suc j)
unfolding remove_at
get_elem?-remove_at_ge i j [] h = refl
get_elem?-remove_at_ge zero j (x ∷ xs) h = refl
get_elem?-remove_at_ge (suc i) zero (x ∷ xs) h = absurd (omega arith)
get_elem?-remove_at_ge (suc i) (suc j) (x ∷ xs) h = get_elem?-remove_at_ge i j xs (omega arith)
