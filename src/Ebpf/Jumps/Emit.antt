-- ===== src/Ebpf/Jumps/Emit.antt =====
-- pktbaffle/src/ebpf_codegen.rs: the jumps of a compiled program.
use pktbaffle.Prelude.{
  ℕ, zero, suc, ◌+◌, ◌<◌, ◌≤◌, ◌≡◌, refl, ap, ◌∙◌, ◌-◌, some, get_elem?, subst, Bool, true, false,
  arith, List, [], ◌∷◌, ◌++◌, length, length-append, ltb, if◌then◌else◌,
}
use pktbaffle.Ast.{Expr}
use pktbaffle.Codegen.Facts.{LinkType}
use pktbaffle.Ebpf.{Insn, r0, xdp_pass, xdp_drop}
use pktbaffle.Ebpf.Build.{ja, mov64_imm, exit}
use pktbaffle.Ebpf.Encode.{Program}
use pktbaffle.Ebpf.State.{
  Patch, slot, Patches, Result, Codegen, ok, err, here, new, push, resolve_all, CodegenError, ◌>>◌,
}
use pktbaffle.Ebpf.Emit.{
  Work, emit, and_right, and_done, or_right, or_done, not_done, concat, jump_over, and_of, or_of,
  not_of, emit_loop, emit_turns, emit_expr, first_done, return_with, emit_program, compile,
}
use pktbaffle.Ebpf.Jumps.{
  Inside, none_left, also, is_jump, AllBelow, no_patch, before, AllBelow-mono, AllBelow-append,
  NatIn, BothBelow, Inv, Post, kept, failed, Keeps, bind-Post, push-Post, resolve_all-Post,
  resolve_all-Same, Same, patched, too_far, bind-Same, Same-later, is_reported,
}
use pktbaffle.Ebpf.Jumps.Load.{emit_prologue-Post}
use pktbaffle.Ebpf.Jumps.Primitive.{emit_primitive-Post}

concat-AllBelow :
    {n : ℕ} (ps qs : List Patch) → AllBelow n ps → AllBelow n qs → AllBelow n (concat ps qs)
unfolding concat
concat-AllBelow {n = n} ps qs h k = ordered (ltb (length ps) (length qs))
  where
    ordered : (b : Bool) → AllBelow n (if b then qs ++ ps else ps ++ qs)
    ordered true = AllBelow-append k h
    ordered false = AllBelow-append h k

-- The jump over the next operand, which the failures of the last one enter.
jump_over-Post :
    (ps : List Patch) (cg : Codegen)
    → Inv cg
    → AllBelow (length cg.insns) ps
    → Post NatIn (length cg.insns) (jump_over ps cg)
unfolding jump_over here ja
jump_over-Post ps cg v h = bind-Post (push-Post _ _ v refl) (λ _ cg1 v1 l1 a.
    bind-Post (resolve_all-Post cg1 ps (length cg1.insns) v1 (AllBelow-mono l1 h) (omega arith))
      (λ _ _ v2 l2 _. kept v2 (omega arith) (omega arith)))

-- What a step gives to the rest of the work: the state goes on and the patches are of instructions.
abbrev pub Continues : (ℕ → List Patches → Type 0) → ℕ → List Work → List Patches → Codegen → Type 0
Continues V f work done cg =
    (q : Patches) (cg' : Codegen)
    → Inv cg'
    → length cg.insns ≤ length cg'.insns
    → BothBelow (length cg'.insns) q
    → Post V (length cg'.insns) (emit_loop f work (q ∷ done) cg')

-- If the rest of the work keeps the invariant after the patches of an expression, then so does the work
-- that starts with the expression. The turns are those of the expression and of the rest.
emit_loop-Post :
    (V : ℕ → List Patches → Type 0) (e : Expr) (t f : ℕ) (work : List Work) (done : List Patches)
    (cg : Codegen)
    → t ≡ emit_turns e + f
    → Inv cg
    → Continues V f work done cg
    → Post V (length cg.insns) (emit_loop t (emit e ∷ work) done cg)
unfolding emit_loop emit_turns here and_of or_of not_of
emit_loop-Post V (Expr.primitive p) zero f work done cg h v k = absurd (omega arith)
emit_loop-Post V (Expr.primitive p) (suc t) f work done cg h v k =
    let same : f ≡ t = omega arith in
    bind-Post (emit_primitive-Post p cg v) (λ q cg' w l b.
      subst (λ n. Post V (length cg'.insns) (emit_loop n work (q ∷ done) cg')) same (k q cg' w l b))
emit_loop-Post V (Expr.and l r) zero f work done cg h v k = absurd (omega arith)
emit_loop-Post V (Expr.and l r) (suc t) f work done cg h v k =
    emit_loop-Post V l t (suc (emit_turns r + suc f)) (and_right r ∷ work) done cg (omega arith) v
      (λ a cg1 v1 l1 b.
        bind-Post (resolve_all-Post cg1 a.success (length cg1.insns) v1 b.successes (omega arith))
          (λ _ cg2 v2 l2 _.
            emit_loop-Post V r (emit_turns r + suc f) (suc f) (and_done a.failure ∷ work) done cg2
              refl v2
              (λ c cg3 v3 l3 d. k _ cg3 v3 (omega arith) (record {
                successes = d.successes;
                failures =
                    concat-AllBelow a.failure c.failure (AllBelow-mono (omega arith) b.failures)
                      d.failures;
              }))))
emit_loop-Post V (Expr.or l r) zero f work done cg h v k = absurd (omega arith)
emit_loop-Post V (Expr.or l r) (suc t) f work done cg h v k =
    emit_loop-Post V l t (suc (emit_turns r + suc f)) (or_right r ∷ work) done cg (omega arith) v
      (λ a cg1 v1 l1 b. bind-Post (jump_over-Post a.failure cg1 v1 b.failures) (λ j cg2 v2 l2 s.
        emit_loop-Post V r (emit_turns r + suc f) (suc f) (or_done a.success j ∷ work) done cg2 refl
          v2
          (λ c cg3 v3 l3 d. k _ cg3 v3 (omega arith) (record {
            successes =
                concat-AllBelow (a.success ++ (slot j ∷ [])) c.success
                  (AllBelow-append (AllBelow-mono (omega arith) b.successes)
                    (before (omega arith) no_patch))
                  d.successes;
            failures = d.failures;
          }))))
emit_loop-Post V (Expr.not e) zero f work done cg h v k = absurd (omega arith)
emit_loop-Post V (Expr.not e) (suc t) f work done cg h v k =
    emit_loop-Post V e t (suc f) (not_done ∷ work) done cg (omega arith) v (λ a cg1 v1 l1 b.
      bind-Post (jump_over-Post a.failure cg1 v1 b.failures) (λ j cg2 v2 l2 s.
        k _ cg2 v2 (omega arith) (record {
          successes = no_patch;
          failures = AllBelow-append (AllBelow-mono l2 b.successes) (before (omega arith) no_patch);
        })))

-- The patches of the only operand that is left.
data OneDone (n : ℕ) : List Patches → Type 0 where
  one_done : {q : Patches} → BothBelow n q → OneDone n (q ∷ [])

emit_expr-Post : (e : Expr) → Keeps BothBelow (emit_expr e)
unfolding emit_expr emit_loop
emit_expr-Post e cg v =
    bind-Post
      (emit_loop-Post OneDone e (emit_turns e) 0 [] [] cg (omega arith) v
        (λ q cg' w l b. kept w (omega arith) (one_done b)))
      (λ done cg' w l d. single done cg' w d)
  where
    single :
        (done : List Patches) (cg' : Codegen)
        → Inv cg'
        → OneDone (length cg'.insns) done
        → Post BothBelow (length cg'.insns) (first_done done cg')
    single done cg' w (one_done b) = kept w (omega arith) b

Inside-weaken : {m n k : ℕ} {is : List Insn} → m ≤ n → Inside m k is → Inside n k is
Inside-weaken l none_left = none_left
Inside-weaken l (also h t) = also (λ j. let (a, b) = h j in (omega arith, b)) (Inside-weaken l t)

Inside-append_plain :
    {n k : ℕ} {is : List Insn} (i : Insn)
    → is_jump i ≡ false
    → Inside n k is
    → Inside n k (is ++ (i ∷ []))
Inside-append_plain i p none_left = also (λ j. absurd (ground arith)) none_left
Inside-append_plain i p (also h t) = also h (Inside-append_plain i p t)

-- The last instruction is `exit`.
pub record EndsInExit (is : List Insn) : Type 0 where
  pub last : get_elem? is (length is - 1) ≡ some exit

get_elem?-append_last :
    (is : List Insn) (i : Insn) → get_elem? (is ++ (i ∷ [])) (length is) ≡ some i
get_elem?-append_last [] i = refl
get_elem?-append_last (x ∷ is) i = get_elem?-append_last is i

append-EndsInExit : (is : List Insn) → EndsInExit (is ++ (exit ∷ []))
append-EndsInExit is =
    let l = length-append is (exit ∷ []) in
    let q : length (is ++ (exit ∷ [])) - 1 ≡ length is = omega arith in
    record { last = rw (q) (get_elem?-append_last is exit) }

-- A program of `compile`: its jumps go at most 32767 instructions forward and land inside it, and it
-- ends with `exit`. Or an error of the source.
pub data Compiled : Result Program → Type 0 where
  compiled :
      {is : List Insn}
      → Inside (length is) 0 is
      → EndsInExit is
      → Compiled (ok (record { insns = is }))
  refused : {e : CodegenError} → is_reported e ≡ true → Compiled (err e)

data Final : Result ((Unit {0}) × Codegen) → Type 0 where
  landed :
      {u : Unit {0}} {cg : Codegen}
      → Inside (length cg.insns) 0 cg.insns
      → EndsInExit cg.insns
      → Final (ok (u, cg))
  stopped : {e : CodegenError} → is_reported e ≡ true → Final (err e)

bind-Final :
    {A : Type 0} {V : ℕ → A → Type 0} {n : ℕ} {r : Result (A × Codegen)}
    {f : A → Codegen → Result ((Unit {0}) × Codegen)}
    → Post V n r
    → ((a : A) (cg : Codegen) → Inv cg → V (length cg.insns) a → Final (f a cg))
    → Final (elim r [ ok (a, cg) ↦ f a cg | err e ↦ err e ])
bind-Final (kept v l g) k = k _ _ v g
bind-Final (failed e) k = stopped e

Same-Final :
    {n t : ℕ} {is : List Insn} {r : Result ((Unit {0}) × Codegen)}
    → n ≡ length is
    → t < length is
    → EndsInExit is
    → Same n is t r
    → Final r
Same-Final {n = n} {is = is} q l x (patched {cg = cg} w e h) =
    let p : n ≡ length cg.insns = omega arith in
    let i : length cg.insns - 1 ≡ length is - 1 = omega arith in
    landed (subst (λ m. Inside m 0 cg.insns) p w)
      (record { last = ap (get_elem? cg.insns) i ∙ h (length is - 1) (omega arith) ∙ x.last })
Same-Final q l x (too_far e) = stopped e

resolved-Final :
    {n : ℕ} (d : ℕ) (q : Patches) (cg : Codegen)
    → Inside (length cg.insns) 0 cg.insns
    → EndsInExit cg.insns
    → BothBelow n q
    → n ≤ d
    → d < length cg.insns
    → Final ((resolve_all q.success n >> resolve_all q.failure d) cg)
resolved-Final {n = n} d q cg v x b m l = Same-Final refl l x (
    bind-Same
      (Same-later m (resolve_all-Same cg q.success n v b.successes (omega arith) (omega arith)))
      (λ cg' w e.
        resolve_all-Same cg' q.failure d w (AllBelow-mono m b.failures) (omega arith)
          (omega arith)))

emit_program-Final : (e : Expr) (link : LinkType) → Final (emit_program e (new link))
unfolding emit_program new here return_with push mov64_imm exit
emit_program-Final e link = bind-Final (emit_prologue-Post (new link) none_left) (λ _ cg0 v0 _.
    bind-Final (emit_expr-Post e cg0 v0) (λ q cg v b.
      let one = length-append cg.insns (mov64_imm r0 xdp_pass ∷ []) in
      let two = length-append (cg.insns ++ (mov64_imm r0 xdp_pass ∷ [])) (exit ∷ []) in
      let three =
        length-append (cg.insns ++ (mov64_imm r0 xdp_pass ∷ []) ++ (exit ∷ []))
          (mov64_imm r0 xdp_drop ∷ []) in
      let four =
        length-append
          (cg.insns ++ (mov64_imm r0 xdp_pass ∷ []) ++ (exit ∷ []) ++ (mov64_imm r0 xdp_drop ∷ []))
          (exit ∷ []) in
      resolved-Final _ q _
        (Inside-weaken (omega arith) (
          Inside-append_plain _ refl (
            Inside-append_plain _ refl
              (Inside-append_plain _ refl (Inside-append_plain _ refl v)))))
        (append-EndsInExit _) b (omega arith) (omega arith)))

-- For every expression and link type, `compile` returns a program whose jumps go at most 32767
-- instructions forward and land inside it and which ends with `exit`, or an error with a message of the
-- source: no index is out of bounds, no patch goes backward, and the work stack never runs out of turns or of operands.
pub compile-Compiled : (e : Expr) (link : LinkType) → Compiled (compile e link)
unfolding compile
compile-Compiled e link = ended (emit_program-Final e link)
  where
    ended :
        {r : Result ((Unit {0}) × Codegen)}
        → Final r
        → Compiled (elim r [ ok (_, cg) ↦ ok (record { insns = cg.insns }) | err e ↦ err e ])
    ended (landed v x) = compiled v x
    ended (stopped e) = refused e
