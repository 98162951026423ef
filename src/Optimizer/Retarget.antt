-- ===== src/Optimizer/Retarget.antt =====
-- pktbaffle/src/optimizer.rs: the marks of `optimize`, and the jumps that `remove_unkept` rewrites.
use pktbaffle.Prelude.{
  ℕ, zero, suc, ◌+◌, ◌%◌, ◌<◌, ◌^◌, ◌≡◌, refl, ap, Bool, true, false, some, if◌then◌else◌, not,
  ◌&&◌, ◌==◌, arith, List, [], ◌∷◌, get_elem?, length,
}
use pktbaffle.Bpf.{Insn, IsTyped}
use pktbaffle.Vm.{Regs, taken, uses_x}
use pktbaffle.Optimizer.{is_ja, is_cond_jump, keep_marks, new_index, new_offset, retarget}
use pktbaffle.Optimizer.Remove.{kept, new_offset_lem, new_offset-le}

-- Where nothing else drops it, an instruction is kept or is one that does nothing.
pub get_elem?-keep_marks :
    (xs : List Insn) (rs ds : List Bool) (j : ℕ) (x : Insn) (r d : Bool)
    → get_elem? xs j ≡ some x
    → get_elem? rs j ≡ some r
    → get_elem? ds j ≡ some d
    → get_elem? (keep_marks xs rs ds) j ≡ some (r && not d && not (is_ja x && x.k == 0))
unfolding keep_marks
get_elem?-keep_marks [] rs ds j x r d a b c = cc
get_elem?-keep_marks (y ∷ xs) [] ds j x r d a b c = cc
get_elem?-keep_marks (y ∷ xs) (r' ∷ rs) [] j x r d a b c = cc
get_elem?-keep_marks (y ∷ xs) (r' ∷ rs) (d' ∷ ds) zero x r d a b c =
    let p : y ≡ x = ground arith in
    let q : r' ≡ r = ground arith in let w : d' ≡ d = ground arith in rw (p, q, w) refl
get_elem?-keep_marks (y ∷ xs) (r' ∷ rs) (d' ∷ ds) (suc j) x r d a b c =
    get_elem?-keep_marks xs rs ds j x r d a b c

pub length-keep_marks :
    (xs : List Insn) (rs ds : List Bool)
    → length rs ≡ length xs
    → length ds ≡ length xs
    → length (keep_marks xs rs ds) ≡ length xs
unfolding keep_marks
length-keep_marks [] [] ds a b = refl
length-keep_marks [] (r ∷ rs) ds a b = absurd (omega arith)
length-keep_marks (y ∷ xs) [] ds a b = absurd (omega arith)
length-keep_marks (y ∷ xs) (r ∷ rs) [] a b = absurd (omega arith)
length-keep_marks (y ∷ xs) (r ∷ rs) (d ∷ ds) a b =
    ap suc (length-keep_marks xs rs ds (omega arith) (omega arith))

-- What a retargeted instruction is, by its kind.
pub retarget_plain :
    (index : List ℕ) (i : ℕ) (x : Insn)
    → is_ja x ≡ false
    → is_cond_jump x ≡ false
    → retarget index i x ≡ x
unfolding retarget
retarget_plain index i x j c = rw (j, c) refl

retarget_ja :
    (index : List ℕ) (i : ℕ) (x : Insn)
    → is_ja x ≡ true
    → retarget index i x ≡ record x { k = new_offset index i (i + 1 + x.k) % 2 ^ 32 }
unfolding retarget
retarget_ja index i x j = rw j refl

retarget_cond :
    (index : List ℕ) (i : ℕ) (x : Insn)
    → is_ja x ≡ false
    → is_cond_jump x ≡ true
    → retarget index i x ≡ record x {
      jt = new_offset index i (i + 1 + x.jt) % 2 ^ 8;
      jf = new_offset index i (i + 1 + x.jf) % 2 ^ 8;
    }
unfolding retarget
retarget_cond index i x j c = rw (j, c) refl

pub is_ja-retarget : (index : List ℕ) (i : ℕ) (x : Insn) → is_ja (retarget index i x) ≡ is_ja x
unfolding retarget is_ja
is_ja-retarget index i x = ground arith

pub is_cond-retarget :
    (index : List ℕ) (i : ℕ) (x : Insn) → is_cond_jump (retarget index i x) ≡ is_cond_jump x
unfolding retarget is_cond_jump
is_cond-retarget index i x = ground arith

pub taken-retarget :
    (index : List ℕ) (i : ℕ) (x : Insn) (s : Regs)
    → is_ja x ≡ false
    → is_cond_jump x ≡ true
    → taken (retarget index i x) s ≡ taken x s
unfolding taken uses_x
taken-retarget index i x s j c = rw (retarget_cond index i x j c) refl

-- Retargeted offsets lead to the new index of the old target.
module _ (keep : List Bool) (i : ℕ) (x : Insn) (kept_here : get_elem? keep i ≡ some true) where
  pub ja_target :
      is_ja x ≡ true
      → i + 1 + x.k < 2 ^ 32
      → kept keep i + 1 + (retarget (new_index 0 keep) i x).k ≡ kept keep (i + 1 + x.k)
  ja_target j h = rw (retarget_ja (new_index 0 keep) i x j) (
      omega (
        arith,
        new_offset_lem keep i (i + 1 + x.k) kept_here (omega arith),
        new_offset-le keep i (i + 1 + x.k) kept_here (omega arith),
      ))

  pub cond_target :
      (t : Bool)
      → is_ja x ≡ false
      → is_cond_jump x ≡ true
      → IsTyped x
      → let y : Insn = retarget (new_index 0 keep) i x in
        kept keep i + 1 + (if t then y.jt else y.jf)
        ≡ kept keep (i + 1 + (if t then x.jt else x.jf))
  cond_target true j c ty = rw (retarget_cond (new_index 0 keep) i x j c) (
      omega (
        arith,
        ty.jt_u8,
        new_offset_lem keep i (i + 1 + x.jt) kept_here (omega arith),
        new_offset-le keep i (i + 1 + x.jt) kept_here (omega arith),
      ))
  cond_target false j c ty = rw (retarget_cond (new_index 0 keep) i x j c) (
      omega (
        arith,
        ty.jf_u8,
        new_offset_lem keep i (i + 1 + x.jf) kept_here (omega arith),
        new_offset-le keep i (i + 1 + x.jf) kept_here (omega arith),
      ))
