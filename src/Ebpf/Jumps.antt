-- ===== src/Ebpf/Jumps.antt =====
-- pktbaffle/src/ebpf_codegen.rs: where the jumps of the emitted program land, as an invariant of the
-- compiler's state, and the rules for its steps.
pub mod Combine
pub mod Load
pub mod Addr
pub mod Transport
pub mod Link
pub mod Access
pub mod Primitive
pub mod Emit
use pktbaffle.Prelude.{
  ℕ, zero, suc, ◌+◌, ◌-◌, ◌*◌, ◌%◌, ◌^◌, ◌<◌, ◌≤◌, ◌≡◌, refl, subst, Bool, true, false, not, ◌&&◌,
  ◌||◌, ◌==◌, ltb, List, [], ◌∷◌, ◌++◌, some, none, arith, length, get_elem?, set, Option-cases,
  Option, inl, inr, if◌then◌else◌, length-append, length-set, get_elem?-lt, get_elem?-set_ne, ◌∙◌,
}
use pktbaffle.Ebpf.{Insn}
use pktbaffle.Ebpf.State.{
  Patch, slot, Patches, Codegen, Result, ok, err, M, push, set_off, resolve, resolve_all,
  CodegenError, panicked, throw, jump_offset_overflow,
}

-- A jump: an opcode of class JMP or JMP32 other than `exit`.
abbrev pub is_jump : Insn → Bool
is_jump i = (i.code % 8 == 5 && not (i.code == 0x95)) || (i.code % 8 == 6)

-- The jumps of a list that starts at index `k` land below `n`, at most 32767 instructions further on.
pub data Inside (n : ℕ) : ℕ → List Insn → Type 0 where
  none_left : {k : ℕ} → Inside n k []
  also :
      {k : ℕ} {i : Insn} {is : List Insn}
      → (is_jump i ≡ true → (k + 1 + i.off < n) × (i.off < 2 ^ 15))
      → Inside n (suc k) is
      → Inside n k (i ∷ is)

-- A jump that is not resolved yet goes to the next instruction.
abbrev pub still : Insn → Bool
still i = if is_jump i then i.off == 0 else true

abbrev pub index : Patch → ℕ
index (slot k) = k

pub data AllBelow (n : ℕ) : List Patch → Type 0 where
  no_patch : AllBelow n []
  before : {p : Patch} {ps : List Patch} → index p < n → AllBelow n ps → AllBelow n (p ∷ ps)

pub AllBelow-mono : {m n : ℕ} {ps : List Patch} → m ≤ n → AllBelow m ps → AllBelow n ps
AllBelow-mono l no_patch = no_patch
AllBelow-mono l (before h t) = before (omega arith) (AllBelow-mono l t)

pub AllBelow-append :
    {n : ℕ} {ps qs : List Patch} → AllBelow n ps → AllBelow n qs → AllBelow n (ps ++ qs)
AllBelow-append no_patch b = b
AllBelow-append (before h t) b = before h (AllBelow-append t b)

-- The results of a step in a state of `n` instructions: indices and patches of instructions.
abbrev pub NatIn : ℕ → ℕ → Type 0
NatIn n k = k < n

abbrev pub PatchIn : ℕ → Patch → Type 0
PatchIn n p = index p < n

abbrev pub Any : {A : Type 0} → ℕ → A → Type 0
Any n a = 0 ≤ n

pub record BothBelow (n : ℕ) (q : Patches) : Type 0 where
  pub successes : AllBelow n q.success
  pub failures : AllBelow n q.failure

-- The errors that the source raises, and not a panic.
abbrev pub is_reported : CodegenError → Bool
is_reported panicked = false
is_reported _ = true

abbrev pub Inv : Codegen → Type 0
Inv cg = Inside (suc (length cg.insns)) 0 cg.insns

-- What holds of a step's result: an error with a message, or a state that keeps the invariant, is no
-- shorter than `n`, and has a good result.
pub data Post {A : Type 0} (V : ℕ → A → Type 0) (n : ℕ) : Result (A × Codegen) → Type 0 where
  kept :
      {a : A} {cg : Codegen}
      → Inv cg
      → n ≤ length cg.insns
      → V (length cg.insns) a
      → Post V n (ok (a, cg))
  failed : {e : CodegenError} → is_reported e ≡ true → Post V n (err e)

abbrev pub Keeps : {A : Type 0} → (ℕ → A → Type 0) → M A → Type 0
Keeps V m = (cg : Codegen) → Inv cg → Post V (length cg.insns) (m cg)

pub Post-weaken :
    {A : Type 0} {V : ℕ → A → Type 0} {m n : ℕ} {r : Result (A × Codegen)}
    → m ≤ n
    → Post V n r
    → Post V m r
Post-weaken l (kept v b g) = kept v (omega arith) g
Post-weaken l (failed e) = failed e

pub bind-Post :
    {A B : Type 0} {V : ℕ → A → Type 0} {W : ℕ → B → Type 0} {n : ℕ} {r : Result (A × Codegen)}
    {f : A → Codegen → Result (B × Codegen)}
    → Post V n r
    → ((a : A) (cg : Codegen)
        → Inv cg
        → n ≤ length cg.insns
        → V (length cg.insns) a
        → Post W (length cg.insns) (f a cg))
    → Post W n (elim r [ ok (a, cg) ↦ f a cg | err e ↦ err e ])
bind-Post (kept v b g) k = Post-weaken b (k _ _ v b g)
bind-Post (failed e) k = failed e

pub if-Post :
    {A : Type 0} {V : ℕ → A → Type 0} {n : ℕ} {cg : Codegen} (b : Bool) (f g : M A)
    → Post V n (f cg)
    → Post V n (g cg)
    → Post V n ((if b then f else g) cg)
if-Post true f g p q = p
if-Post false f g p q = q

pub option-Post :
    {X A : Type 0} {V : ℕ → A → Type 0} {n : ℕ} {cg : Codegen} (o : Option X) (f : X → M A)
    (g : M A)
    → ((x : X) → Post V n (f x cg))
    → Post V n (g cg)
    → Post V n (elim o as (λ _. M A) [ some x ↦ f x | none ↦ g ] cg)
option-Post (some x) f g p q = p x
option-Post none f g p q = q

Inside-append :
    {m n k : ℕ} {is : List Insn} (i : Insn)
    → Inside m k is
    → m ≤ n
    → k + length is + 1 < n
    → still i ≡ true
    → Inside n k (is ++ (i ∷ []))
Inside-append i none_left l b s = also (λ j. (ground arith, ground arith)) none_left
Inside-append i (also h t) l b s =
    also (λ j. let (a, c) = h j in (omega arith, c)) (Inside-append i t l (omega arith) s)

pub push-Post :
    (cg : Codegen) (i : Insn) → Inv cg → still i ≡ true → Post NatIn (length cg.insns) (push i cg)
unfolding push
push-Post cg i v s =
    let l = length-append cg.insns (i ∷ []) in
    kept (Inside-append i v (omega arith) (omega arith) s) (omega arith) (omega arith)

Inside-set :
    {n k : ℕ} {is : List Insn} {x : Insn} {d : ℕ} (j : ℕ)
    → Inside n k is
    → get_elem? is j ≡ some x
    → k + j + 1 + d < n
    → d < 2 ^ 15
    → Inside n k (set is j (record x { off = d }))
Inside-set j none_left e b s = none_left
Inside-set {x = x} {d = d} zero (also {i = i} h t) e b s = also (λ _. (omega arith, s)) t
Inside-set (suc j) (also h t) e b s = also h (Inside-set j t e (omega arith) s)

-- A step that keeps the number of instructions, the jumps below `n`, and the instructions from `t` on.
pub data Same (n : ℕ) (is : List Insn) (t : ℕ) : Result ((Unit {0}) × Codegen) → Type 0 where
  patched :
      {u : Unit {0}} {cg : Codegen}
      → Inside n 0 cg.insns
      → length cg.insns ≡ length is
      → ((j : ℕ) → t ≤ j → get_elem? cg.insns j ≡ get_elem? is j)
      → Same n is t (ok (u, cg))
  too_far : {e : CodegenError} → is_reported e ≡ true → Same n is t (err e)

set_off-Same :
    {n t : ℕ} (cg : Codegen) (from d : ℕ)
    → Inside n 0 cg.insns
    → from < length cg.insns
    → from < t
    → from + 1 + d < n
    → d < 2 ^ 15
    → Same n cg.insns t (set_off from d cg)
set_off-Same cg from d v b f l s =
    let (x, e) = get_elem?-lt cg.insns from b in
    rw (e, set_off)
      (patched (Inside-set from v e (omega arith) s)
        (length-set cg.insns from (record x { off = d }))
        (λ j g. get_elem?-set_ne cg.insns from j (record x { off = d }) (λ q. omega arith)))

resolve-Same :
    {n : ℕ} (cg : Codegen) (p : Patch) (t : ℕ)
    → Inside n 0 cg.insns
    → index p < t
    → t ≤ length cg.insns
    → t < n
    → Same n cg.insns t (resolve p t cg)
unfolding resolve
resolve-Same {n = n} cg (slot from) t v b l s =
    let below : ltb from t ≡ true = ground arith in
    rw (below) (placed (ltb 32767 (t - from - 1)) refl)
  where
    placed :
        (far : Bool)
        → ltb 32767 (t - from - 1) ≡ far
        → Same n cg.insns t
            ((if far then throw jump_offset_overflow else set_off from (t - from - 1)) cg)
    placed true e = too_far refl
    placed false e =
        set_off-Same cg from (t - from - 1) v (omega arith) b (omega arith) (ground arith)

Same-after :
    {n t : ℕ} {is js : List Insn} {r : Result ((Unit {0}) × Codegen)}
    → length js ≡ length is
    → ((j : ℕ) → t ≤ j → get_elem? js j ≡ get_elem? is j)
    → Same n js t r
    → Same n is t r
Same-after q k (patched v e h) = patched v (e ∙ q) (λ j g. h j g ∙ k j g)
Same-after q k (too_far e) = too_far e

pub bind-Same :
    {n t : ℕ} {is : List Insn} {r : Result ((Unit {0}) × Codegen)} {f : M (Unit {0})}
    → Same n is t r
    → ((cg : Codegen)
        → Inside n 0 cg.insns
        → length cg.insns ≡ length is
        → Same n cg.insns t (f cg))
    → Same n is t (elim r [ ok (_, cg) ↦ f cg | err e ↦ err e ])
bind-Same (patched v e h) k = Same-after e h (k _ v e)
bind-Same (too_far e) k = too_far e

pub resolve_all-Same :
    {n : ℕ} (cg : Codegen) (ps : List Patch) (t : ℕ)
    → Inside n 0 cg.insns
    → AllBelow t ps
    → t ≤ length cg.insns
    → t < n
    → Same n cg.insns t (resolve_all ps t cg)
unfolding resolve_all
resolve_all-Same cg [] t v no_patch l s = patched v refl (λ j g. refl)
resolve_all-Same cg (p ∷ ps) t v (before h k) l s =
    bind-Same (resolve-Same cg p t v h l s)
      (λ cg' w e. resolve_all-Same cg' ps t w k (omega arith) s)

pub Same-later :
    {n t u : ℕ} {is : List Insn} {r : Result ((Unit {0}) × Codegen)}
    → t ≤ u
    → Same n is t r
    → Same n is u r
Same-later l (patched v e h) = patched v e (λ j g. h j (omega arith))
Same-later l (too_far e) = too_far e

Same-Post :
    {n t : ℕ} {is : List Insn} {r : Result ((Unit {0}) × Codegen)}
    → n ≡ suc (length is)
    → Same n is t r
    → Post Any (length is) r
Same-Post {n = n} q (patched {cg = cg} v e h) =
    let t : n ≡ suc (length cg.insns) = omega arith in
    kept (subst (λ m. Inside m 0 cg.insns) t v) (omega arith) (omega arith)
Same-Post q (too_far e) = failed e

pub resolve-Post :
    (cg : Codegen) (p : Patch) (t : ℕ)
    → Inv cg
    → index p < t
    → t ≤ length cg.insns
    → Post Any (length cg.insns) (resolve p t cg)
resolve-Post cg p t v b l = Same-Post refl (resolve-Same cg p t v b l (omega arith))

pub resolve_all-Post :
    (cg : Codegen) (ps : List Patch) (t : ℕ)
    → Inv cg
    → AllBelow t ps
    → t ≤ length cg.insns
    → Post Any (length cg.insns) (resolve_all ps t cg)
resolve_all-Post cg ps t v b l = Same-Post refl (resolve_all-Same cg ps t v b l (omega arith))
