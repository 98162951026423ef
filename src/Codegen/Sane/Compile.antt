-- ===== src/Codegen/Sane/Compile.antt =====
-- pktbaffle/src/codegen.rs: the assembled program meets what the optimizer asks for, so that
-- `compile` keeps its verdicts.
use pktbaffle.Prelude.{
  ℕ, true, ◌<◌, ◌^◌, ◌≡◌, refl, sym, subst, ap, ◌∙◌, ◌+◌, arith, List, some, none, length,
  lt_of_get_elem?,
}
use pktbaffle.Bpf.{Insn}
use pktbaffle.Bpf.Encode.{Program}
use pktbaffle.Vm.{Packet, run}
use pktbaffle.Ast.{Expr}
use pktbaffle.Ast.Tree.{size}
use pktbaffle.Codegen.Facts.{LinkType}
use pktbaffle.Codegen.State.{CodegenError, panicked, Codegen, Result, ok, err, new}
use pktbaffle.Codegen.Emit.{emit_expr, assemble, optimized, compile}
use pktbaffle.Codegen.EmitWalk.{emit_expr_lem}
use pktbaffle.Codegen.Sane.{
  AllGood, none_left, Inv, Post, Keeps, kept, failed, bind-Post, push-Post, resolve_all-Post,
  AllGood-get,
}
use pktbaffle.Codegen.Sane.Build.{ret_k-IsGood}
use pktbaffle.Codegen.Sane.Guards.{fits}
use pktbaffle.Optimizer.{optimize}
use pktbaffle.Optimizer.Sane.{IsSane}
use pktbaffle.Optimizer.Sound.{optimize-run}
use pktbaffle.Codegen.Sane.Emit.{emit_rec-Post}

emit_expr-Post : (e : Expr) (d : ℕ) → d + size e < 2 ^ 20 → fits e ≡ true → Keeps d (emit_expr e)
emit_expr-Post e d s h cg v =
    subst (λ m. Post d (m cg)) (sym (emit_expr_lem e))
      (bind-Post (emit_rec-Post e d s h cg v) (λ _ _ z. kept z))

-- A result whose program consists of good instructions.
data Emits : Result (List Insn × Codegen) → Type 0 where
  emits : {p : List Insn} {cg : Codegen} → AllGood p → Emits (ok (p, cg))
  refuses : {e : CodegenError} → Emits (err e)

bind-Emits :
    {A : Type 0} {d : ℕ} {r : Result (A × Codegen)} {f : A → Codegen → Result (List Insn × Codegen)}
    → Post d r
    → ((a : A) (cg : Codegen) → Inv d cg → Emits (f a cg))
    → Emits (elim r [ ok (a, cg) ↦ f a cg | err e ↦ err e ])
bind-Emits (kept v) k = k _ _ v
bind-Emits failed k = refuses

new-Inv : (link : LinkType) → Inv 0 (new link)
unfolding new
new-Inv link = record { depth = refl; shallow = omega arith; good = none_left }

assemble-Emits :
    (e : Expr) (link : LinkType) → size e < 2 ^ 20 → fits e ≡ true → Emits (assemble e (new link))
unfolding assemble
assemble-Emits e link s h =
    bind-Emits (emit_expr-Post e 0 (omega arith) h (new link) (new-Inv link)) (λ ps c0 w0.
      bind-Emits (push-Post w0 (ret_k-IsGood (omega arith))) (λ _ _ w1.
        bind-Emits (push-Post w1 (ret_k-IsGood (omega arith))) (λ _ _ w2.
          bind-Emits (resolve_all-Post ps.success (length c0.insns) w2) (λ _ _ w3.
            bind-Emits (resolve_all-Post ps.failure (length c0.insns + 1) w3)
              (λ _ c4 w4. emits w4.good)))))

Emits-ok :
    {r : Result (List Insn × Codegen)} (p : List Insn) (cg : Codegen)
    → Emits r
    → r ≡ ok (p, cg)
    → AllGood p
Emits-ok p cg (emits {p = q} g) e = let x : q ≡ p = cc in rw (← x) g
Emits-ok p cg refuses e = absurd (ground arith)

AllGood-IsSane : (p : List Insn) → AllGood p → length p < 2 ^ 31 → IsSane p
AllGood-IsSane p g s = record {
  fits = record { typed = λ j i e. (AllGood-get j i g e).typed; short = omega arith };
  lands =
      λ j i e q. let k = (AllGood-get j i g e).short_ja q in omega (arith, lt_of_get_elem? p j e);
  canonical = λ j i e. (AllGood-get j i g e).canonical;
}

-- A filter whose numbers fit their types assembles to a program that the optimizer accepts.
pub assemble-IsSane :
    (e : Expr) (link : LinkType) (p : List Insn) (cg : Codegen)
    → size e < 2 ^ 20
    → fits e ≡ true
    → length p < 2 ^ 31
    → assemble e (new link) ≡ ok (p, cg)
    → IsSane p
assemble-IsSane e link p cg s h l a =
    AllGood-IsSane p (Emits-ok p cg (assemble-Emits e link s h) a) l

compile-ok :
    (e : Expr) (link : LinkType) (p q : List Insn) (cg : Codegen)
    → assemble e (new link) ≡ ok (p, cg)
    → optimize p ≡ some q
    → compile e link ≡ ok (record { insns = q })
unfolding compile
compile-ok e link p q cg a o =
    ap (λ r. elim r as (λ _. Result Program) [ ok (insns, _) ↦ optimized insns | err x ↦ err x ]) a
    ∙ ap
        (λ r. elim r as (λ _. Result Program) [
          | some q ↦ ok (record { insns = q })
          | none ↦ err panicked
        ])
        o

-- For a filter of fewer than 2 ^ 20 nodes whose numbers fit their types, if the code generator
-- assembles a program of fewer than 2 ^ 31 instructions, then `compile` returns a program that gives
-- the verdict of the assembled one on every packet.
pub compile-run :
    (e : Expr) (link : LinkType) (p : List Insn) (cg : Codegen)
    → size e < 2 ^ 20
    → fits e ≡ true
    → length p < 2 ^ 31
    → assemble e (new link) ≡ ok (p, cg)
    → (q : List Insn) × (compile e link ≡ ok (record { insns = q }))
      × ((pkt : Packet) → run q pkt ≡ run p pkt)
compile-run e link p cg s h l a =
    let (q, o, same) = optimize-run p (assemble-IsSane e link p cg s h l a) in
    (q, compile-ok e link p q cg a o, same)
