-- ===== src/Codegen/Sane/Emit.antt =====
-- pktbaffle/src/codegen.rs: the walk over the expression keeps the invariant.
use pktbaffle.Prelude.{
  ℕ, Bool, true, false, ◌<◌, ◌^◌, ◌≡◌, refl, subst, ap, ◌+◌, ◌-◌, arith, List, Option, some, none,
  length, if◌then◌else◌,
}
use pktbaffle.Ast.{
  Expr, Primitive, host, port, port_range, net6, proto, ether_host, ether_proto, ether_multicast,
  ip_broadcast, ip_multicast, ip6_multicast, vlan, mpls, pppoe_discovery, pppoe_session,
  ip_proto_chain, ip6_proto_chain, len, inbound, outbound, byte_access,
}
use pktbaffle.Ast.Tree.{size}
use pktbaffle.Codegen.Facts.{Facts}
use pktbaffle.Codegen.Guards.{GuardSet, intersect}
use pktbaffle.Codegen.GuardWalk.{guards_of, required_guards_lem}
use pktbaffle.Codegen.State.{Patch, Patches, Codegen, Result, ok, err, M, link_has_ether}
use pktbaffle.Codegen.Emit.{
  emit_primitive, hoist, hoist_ethertype, hoist_guards, emit_or_hoist, Done, step_and_right,
  step_and_done, step_or_right, step_or_done, step_not_done,
}
use pktbaffle.Codegen.EmitWalk.{emit_rec}
use pktbaffle.Codegen.Sane.{
  Inv, Post, Keeps, kept, failed, bind-Post, if-Post, push-Post, resolve_all-Post, with_facts,
}
use pktbaffle.Codegen.Sane.Build.{ja-IsGood}
use pktbaffle.Codegen.Sane.Check.{
  emit_ethertype-Post, emit_ip4_l4-Post, emit_ip6_l4-Post, emit_proto-Post,
}
use pktbaffle.Codegen.Sane.Addr.{
  emit_host-Post, emit_net-Post, emit_net6-Post, emit_ip_broadcast-Post, emit_ip_multicast-Post,
  emit_ip6_multicast-Post,
}
use pktbaffle.Codegen.Sane.Port.{emit_port-Post, emit_portrange-Post, emit_port_prereqs_set-Post}
use pktbaffle.Codegen.Sane.Link.{
  emit_ether_host-Post, emit_ether_multicast-Post, emit_vlan-Post, emit_mpls-Post,
  emit_pppoe_session-Post,
}
use pktbaffle.Codegen.Sane.Access.{emit_len-Post, emit_byte_access-Post}
use pktbaffle.Codegen.Sane.Guards.{
  fits_primitive, fits, Within, SetWithin, GuardsFit, intersect-GuardsFit, guards_of-GuardsFit,
}

emit_primitive-Post : {d : ℕ} (p : Primitive) → fits_primitive p ≡ true → Keeps d (emit_primitive p)
unfolding emit_primitive fits_primitive
emit_primitive-Post (proto p) h cg v = emit_proto-Post p v h
emit_primitive-Post (host a dir) h cg v = emit_host-Post a dir h cg v
emit_primitive-Post (Primitive.net n dir) h cg v = emit_net-Post n dir h cg v
emit_primitive-Post (net6 n dir) h cg v = emit_net6-Post n dir h cg v
emit_primitive-Post (port k dir pr) h cg v = emit_port-Post k dir pr (ground arith) cg v
emit_primitive-Post (port_range lo hi dir pr) h cg v =
    emit_portrange-Post lo hi dir pr (ground arith) (ground arith) cg v
emit_primitive-Post (ether_host m dir) h cg v = emit_ether_host-Post m dir h cg v
emit_primitive-Post (ether_proto et) h cg v = emit_ethertype-Post v (ground arith)
emit_primitive-Post ether_multicast h cg v = emit_ether_multicast-Post cg v
emit_primitive-Post ip_broadcast h cg v = emit_ip_broadcast-Post cg v
emit_primitive-Post ip_multicast h cg v = emit_ip_multicast-Post cg v
emit_primitive-Post ip6_multicast h cg v = emit_ip6_multicast-Post cg v
emit_primitive-Post (vlan id) h cg v = emit_vlan-Post id h cg v
emit_primitive-Post (mpls l) h cg v = emit_mpls-Post l h cg v
emit_primitive-Post pppoe_discovery h cg v = emit_ethertype-Post v (omega arith)
emit_primitive-Post (pppoe_session id) h cg v = emit_pppoe_session-Post id h cg v
emit_primitive-Post (ip_proto_chain n) h cg v = emit_ip4_l4-Post v (ground arith)
emit_primitive-Post (ip6_proto_chain n) h cg v = emit_ip6_l4-Post v (ground arith)
emit_primitive-Post (len op k) h cg v = emit_len-Post op k (ground arith) cg v
emit_primitive-Post inbound h cg v = failed
emit_primitive-Post outbound h cg v = failed
emit_primitive-Post (byte_access b) h cg v = emit_byte_access-Post b h cg v

hoist-Post :
    {X : Type 0} {d : ℕ} (o : Option X) (emit : X → M Patches)
    → ((x : X) → o ≡ some x → Keeps d (emit x))
    → Keeps d (hoist o emit)
hoist-Post none emit h cg v = kept v
hoist-Post (some x) emit h cg v = bind-Post (h x refl cg v) (λ _ _ z. kept z)

Within-some : (o : Option ℕ) (n : ℕ) → Within o → o ≡ some n → n < 2 ^ 32
Within-some none n h e = absurd (ground arith)
Within-some (some m) n h e = let q : m ≡ n = cc in rw (← q) h

hoist_guards-Post : {d : ℕ} (g : GuardSet) → GuardsFit g → Keeps d (hoist_guards g)
unfolding hoist_guards hoist_ethertype
hoist_guards-Post g h cg v =
    bind-Post
      (if-Post {cg = cg} (link_has_ether cg.link) _ _
        (hoist-Post g.ethertype _
          (λ n e c w. emit_ethertype-Post w (Within-some g.ethertype n h.ethertype e)) cg v)
        (kept v))
      (λ _ c1 w1.
        bind-Post
          (hoist-Post g.ip4_proto _
            (λ n e c w. emit_ip4_l4-Post w (Within-some g.ip4_proto n h.ip4_proto e)) c1 w1)
          (λ _ c2 w2.
            bind-Post
              (hoist-Post g.ip6_nh _
                (λ n e c w. emit_ip6_l4-Post w (Within-some g.ip6_nh n h.ip6_nh e)) c2 w2)
              (λ _ c3 w3.
                bind-Post
                  (hoist-Post g.port_prereqs _
                    (λ s e. emit_port_prereqs_set-Post s (subst SetWithin e h.port_prereqs)) c3 w3)
                  (λ _ _ z. kept z))))

emit_or_hoist-Post :
    {d : ℕ} (l r : Expr) → fits l ≡ true → fits r ≡ true → Keeps d (emit_or_hoist l r)
unfolding emit_or_hoist
emit_or_hoist-Post l r h k cg v =
    rw (emit_or_hoist, required_guards_lem l, required_guards_lem r)
      (hoist_guards-Post (intersect (guards_of l) (guards_of r))
        (intersect-GuardsFit (guards_of l) (guards_of r) (guards_of-GuardsFit l h)) cg v)

-- The depth in the right operand of an `and` whose left side is a `vlan` check.
abbrev bumped : Bool → ℕ → ℕ
bumped true d = d + 1
bumped false d = d

bumped-Inv :
    {d : ℕ} {cg : Codegen} (b : Bool)
    → d + 1 < 2 ^ 20
    → Inv d cg
    → Inv (bumped b d) (if b then record cg { vlan_depth = cg.vlan_depth + 1 } else cg)
bumped-Inv true s v = record { depth = ap (λ n. n + 1) v.depth; shallow = s; good = v.good }
bumped-Inv false s v = v

unbumped-Inv :
    {d : ℕ} {cg : Codegen} (b : Bool)
    → d < 2 ^ 20
    → Inv (bumped b d) cg
    → Inv d (if b then record cg { vlan_depth = cg.vlan_depth - 1 } else cg)
unbumped-Inv true s v = record {
  depth = let q = v.depth in omega arith;
  shallow = s;
  good = v.good;
}
unbumped-Inv false s v = v

-- `AndRight`, then the right operand in the scope of one more tag, or of none.
after_left-Post :
    {d : ℕ} {r : Result (Unit {0} × Codegen)} (x : List Patch) (b : Bool)
    (k : List Patch × Bool → Codegen → Result (Done × Codegen))
    → d + 1 < 2 ^ 20
    → Post d r
    → ((cg : Codegen) → Inv (bumped b d) cg → Post d (k (x, b) cg))
    → Post d
        (elim (elim r as (λ _. Result ((List Patch × Bool) × Codegen)) [
          | ok (_, cg) ↦
              ok ((x, b), (if b then record cg { vlan_depth = cg.vlan_depth + 1 } else cg))
          | err e ↦ err e
        ]) [ ok (s, cg) ↦ k s cg | err e ↦ err e ])
after_left-Post x b k s (kept v) h = h _ (bumped-Inv b s v)
after_left-Post x b k s failed h = failed

step_and_done-Post :
    {d : ℕ} (x : List Patch) (b : Bool) (q : Done) (cg : Codegen)
    → d < 2 ^ 20
    → Inv (bumped b d) cg
    → Post d (step_and_done x b q cg)
unfolding step_and_done
step_and_done-Post x b q cg s v = kept (unbumped-Inv b s v)

step_or_right-Post : {d : ℕ} (f : Facts) (n : ℕ) (l : Done) → Keeps d (step_or_right f n l)
unfolding step_or_right
step_or_right-Post f n l cg v =
    bind-Post (push-Post (with_facts v) ja-IsGood)
      (λ _ c1 w1. bind-Post (resolve_all-Post l.0.failure (length c1.insns) w1) (λ _ _ z. kept z))

step_or_done-Post :
    {d : ℕ} (s : List Patch) (j : ℕ) (f : Facts) (h : List Patch) (r : Done)
    → Keeps d (step_or_done s j f h r)
unfolding step_or_done
step_or_done-Post s j f h r cg v = kept (with_facts v)

step_not_done-Post : {d : ℕ} (f : Facts) (n : ℕ) (i : Done) → Keeps d (step_not_done f n i)
unfolding step_not_done
step_not_done-Post f n i cg v =
    bind-Post (push-Post (with_facts v) ja-IsGood)
      (λ _ c1 w1. bind-Post (resolve_all-Post i.0.failure (length c1.insns) w1) (λ _ _ z. kept z))

bumped-small : (b : Bool) (d n m : ℕ) → d + (1 + n + m) < 2 ^ 20 → bumped b d + m < 2 ^ 20
bumped-small true d n m h = omega arith
bumped-small false d n m h = omega arith

pub emit_rec-Post : (e : Expr) (d : ℕ) → d + size e < 2 ^ 20 → fits e ≡ true → Keeps d (emit_rec e)
unfolding emit_rec size fits step_and_right
emit_rec-Post (Expr.primitive p) d s h cg v =
    bind-Post (emit_primitive-Post p h cg v) (λ _ _ z. kept z)
emit_rec-Post (Expr.and l r) d s h cg v =
    bind-Post (emit_rec-Post l d (omega arith) (ground arith) cg v) (λ a c1 w1.
      after_left-Post a.0.failure a.1 _ (omega arith)
        (resolve_all-Post a.0.success (length c1.insns) w1)
        (λ c2 w2.
          bind-Post
            (emit_rec-Post r (bumped a.1 d) (bumped-small a.1 d (size l) (size r) s) (ground arith)
              c2 w2)
            (λ b c3 w3. step_and_done-Post a.0.failure a.1 b c3 (omega arith) w3)))
emit_rec-Post (Expr.or l r) d s h cg v =
    bind-Post (emit_or_hoist-Post l r (ground arith) (ground arith) cg v) (λ g c0 w0.
      bind-Post (emit_rec-Post l d (omega arith) (ground arith) c0 w0) (λ a c1 w1.
        bind-Post (step_or_right-Post c0.facts c0.x_writes a c1 w1) (λ t c2 w2.
          bind-Post (emit_rec-Post r d (omega arith) (ground arith) c2 w2)
            (λ b c3 w3. step_or_done-Post a.0.success t.1 t.0 g b c3 w3))))
emit_rec-Post (Expr.not e) d s h cg v =
    bind-Post (emit_rec-Post e d (omega arith) h cg v)
      (λ a c1 w1. step_not_done-Post cg.facts cg.x_writes a c1 w1)
