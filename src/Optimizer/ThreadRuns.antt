-- ===== src/Optimizer/ThreadRuns.antt =====
-- pktbaffle/src/optimizer.rs: `thread_jumps` keeps every run, and leaves a sane program sane.
use pktbaffle.Prelude.{
  ℕ, ◌+◌, ◌^◌, ◌≤◌, ◌<◌, ◌≡◌, refl, sym, ap, ◌∙◌, true, some, none, arith, List, get_elem?, length,
  lt_of_get_elem?, get_elem?-lt, get_elem?-ge, ge_of_get_elem?,
}
use pktbaffle.Bpf.{Insn, IsTyped}
use pktbaffle.Optimizer.{
  is_ja, is_cond_jump, final_targets, final_target, narrow_u8, thread_insn, thread_jumps,
}
use pktbaffle.Optimizer.Sane.{IsSane}
use pktbaffle.Optimizer.Thread.{
  final_targets-ge, final_targets-lt, length-thread_from, get_elem?-thread_from, thread_insn_ja,
}

pub length-thread_jumps : (p : List Insn) → length (thread_jumps p) ≡ length p
unfolding thread_jumps
length-thread_jumps p = length-thread_from (final_targets 0 p) 0 p

module _ (p : List Insn) where
  unfoldable pub fin : List ℕ
  fin = final_targets 0 p

  pub get_thread :
      (j : ℕ) (x : Insn)
      → get_elem? p j ≡ some x
      → get_elem? (thread_jumps p) j ≡ some (thread_insn fin j x)
  unfolding thread_jumps fin
  get_thread j x e = get_elem?-thread_from (final_targets 0 p) 0 p j j x (omega arith) e

  pub get_thread_none : (j : ℕ) → get_elem? p j ≡ none → get_elem? (thread_jumps p) j ≡ none
  get_thread_none j e =
      get_elem?-ge (thread_jumps p) j (omega (arith, length-thread_jumps p, ge_of_get_elem? p j e))

  -- Every instruction of the result is the threaded one of its place.
  get_of_thread :
      (j : ℕ) (y : Insn)
      → get_elem? (thread_jumps p) j ≡ some y
      → (x : Insn) × (get_elem? p j ≡ some x) × (y ≡ thread_insn fin j x)
  get_of_thread j y e =
      let small : j < length p =
        omega (arith, length-thread_jumps p, lt_of_get_elem? (thread_jumps p) j e) in
      let (x, q) = get_elem?-lt p j small in
      let both : some (thread_insn fin j x) ≡ some y = sym (get_thread j x q) ∙ e in (x, q, cc)

  pub fin_ge : (t : ℕ) → t ≤ final_target fin t
  unfolding final_target fin
  fin_ge t = final_targets-ge p 0 t t (omega arith)

  module _ (sane : IsSane p) where
    fin_lt : (t : ℕ) → t < 2 ^ 32 → final_target fin t < 2 ^ 32
    unfolding final_target fin
    fin_lt t h =
        final_targets-lt p 0 t t (λ j x e jx. omega (arith, sane.lands j x e jx)) (omega arith) h

    -- The target of a threaded `ja` is the final target.
    pub threaded_ja_target :
        (j : ℕ) (x : Insn)
        → get_elem? p j ≡ some x
        → is_ja x ≡ true
        → j + 1 + (thread_insn fin j x).k ≡ final_target fin (j + 1 + x.k)
    threaded_ja_target j x e jx =
        rw (thread_insn_ja fin j x jx)
          (omega (arith, fin_ge (j + 1 + x.k), fin_lt (j + 1 + x.k) (sane.lands j x e jx)))

code-thread_insn : (fin : List ℕ) (i : ℕ) (x : Insn) → (thread_insn fin i x).code ≡ x.code
unfolding thread_insn
code-thread_insn fin i x = ground arith

pub is_ja-thread_insn : (fin : List ℕ) (i : ℕ) (x : Insn) → is_ja (thread_insn fin i x) ≡ is_ja x
unfolding is_ja
is_ja-thread_insn fin i x = rw code-thread_insn refl

pub is_cond-thread_insn :
    (fin : List ℕ) (i : ℕ) (x : Insn) → is_cond_jump (thread_insn fin i x) ≡ is_cond_jump x
unfolding is_cond_jump
is_cond-thread_insn fin i x = rw code-thread_insn refl

thread_insn-IsTyped : (fin : List ℕ) (i : ℕ) (x : Insn) → IsTyped x → IsTyped (thread_insn fin i x)
unfolding thread_insn narrow_u8
thread_insn-IsTyped fin i x t = ground arith

-- Threading leaves a sane program sane.
pub thread_jumps-IsSane : (p : List Insn) → IsSane p → IsSane (thread_jumps p)
thread_jumps-IsSane p sane = record {
  fits = record {
    typed = λ j y e.
        let (x, q, h) = get_of_thread p j y e in
        rw h (thread_insn-IsTyped (fin p) j x (sane.fits.typed j x q));
    short = omega (arith, length-thread_jumps p, sane.fits.short);
  };
  lands = λ j y e jy.
      let (x, q, h) = get_of_thread p j y e in
      let jx : is_ja x ≡ true = sym (is_ja-thread_insn (fin p) j x) ∙ ap is_ja (sym h) ∙ jy in
      rw h (
        omega (
          arith,
          threaded_ja_target p sane j x q jx,
          fin_lt p sane (j + 1 + x.k) (sane.lands j x q jx),
        ));
  canonical = λ j y e.
      let (x, q, h) = get_of_thread p j y e in
      rw (h, code-thread_insn (fin p) j x) (sane.canonical j x q);
}
