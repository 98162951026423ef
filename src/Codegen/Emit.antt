-- ===== src/Codegen/Emit.antt =====
-- pktbaffle/src/codegen.rs: primitives, the walk over the expression, and `compile`.
use pktbaffle.Prelude.{
  ℕ, zero, suc, ◌+◌, ◌-◌, List, [], ◌∷◌, ◌++◌, Bool, true, false, Option, none, some, ◌==◌,
  if◌then◌else◌, length,
}
use pktbaffle.Bpf.{Insn, bpf_accept, bpf_drop}
use pktbaffle.Bpf.Build.{ja, ret_k}
use pktbaffle.Bpf.Encode.{Program}
use pktbaffle.Ast.{
  Expr, Primitive, host, port, port_range, net6, proto, ether_host, ether_proto, ether_multicast,
  ip_broadcast, ip_multicast, ip6_multicast, vlan, mpls, pppoe_discovery, pppoe_session,
  ip_proto_chain, ip6_proto_chain, len, inbound, outbound, byte_access,
}
use pktbaffle.Codegen.Facts.{Facts, LinkType, meet_facts}
use pktbaffle.Codegen.Guards.{GuardSet, intersect, required_guards}
use pktbaffle.Codegen.State.{
  Patch, Patches, Codegen, M, Result, ok, err, ◌>>=◌, ◌>>◌, pure, throw, get, set_facts, push, new,
  resolve_all, concat, link_has_ether, direction_unsupported, panicked,
}
use pktbaffle.Codegen.Check.{emit_ethertype, emit_ip4_l4, emit_ip6_l4, emit_proto}
use pktbaffle.Codegen.Addr.{
  emit_host, emit_net, emit_net6, emit_ip_broadcast, emit_ip_multicast, emit_ip6_multicast,
}
use pktbaffle.Codegen.Port.{emit_port, emit_portrange, emit_port_prereqs_set}
use pktbaffle.Codegen.Link.{
  emit_ether_host, emit_ether_multicast, emit_vlan, emit_mpls, emit_pppoe_session,
}
use pktbaffle.Codegen.Access.{emit_len, emit_byte_access}
use pktbaffle.Optimizer.{optimize}

unfoldable pub emit_primitive : Primitive → M Patches
emit_primitive (proto p) = emit_proto p
emit_primitive (host addr dir) = emit_host addr dir
emit_primitive (Primitive.net n dir) = emit_net n dir
emit_primitive (net6 n dir) = emit_net6 n dir
emit_primitive (port p dir pr) = emit_port p dir pr
emit_primitive (port_range lo hi dir pr) = emit_portrange lo hi dir pr
emit_primitive (ether_host addr dir) = emit_ether_host addr dir
emit_primitive (ether_proto et) = emit_ethertype et
emit_primitive ether_multicast = emit_ether_multicast
emit_primitive ip_broadcast = emit_ip_broadcast
emit_primitive ip_multicast = emit_ip_multicast
emit_primitive ip6_multicast = emit_ip6_multicast
emit_primitive (vlan id) = emit_vlan id
emit_primitive (mpls label) = emit_mpls label
emit_primitive pppoe_discovery = emit_ethertype 0x8863
emit_primitive (pppoe_session id) = emit_pppoe_session id
emit_primitive (ip_proto_chain n) = emit_ip4_l4 n
emit_primitive (ip6_proto_chain n) = emit_ip6_l4 n
emit_primitive (len op value) = emit_len op value
emit_primitive inbound = throw direction_unsupported
emit_primitive outbound = throw direction_unsupported
emit_primitive (byte_access ba) = emit_byte_access ba

-- `matches!(p, Primitive::Vlan { .. })`.
abbrev pub is_vlan : Primitive → Bool
is_vlan (vlan _) = true
is_vlan _ = false

-- `if let Some(v) = guard { failures.extend(emit(v)?.failure) }`.
abbrev pub hoist {ℓ} : {A : Type ℓ} → Option A → (A → M Patches) → M (List Patch)
hoist none emit = pure []
hoist (some v) emit = do p ← emit v; pure p.failure

unfoldable pub hoist_ethertype : Option ℕ → M (List Patch)
hoist_ethertype guard = do
  cg ← get
  if link_has_ether cg.link then hoist guard emit_ethertype else pure []

unfoldable pub hoist_guards : GuardSet → M (List Patch)
hoist_guards common = do
  a ← hoist_ethertype common.ethertype
  b ← hoist common.ip4_proto emit_ip4_l4
  c ← hoist common.ip6_nh emit_ip6_l4
  d ← hoist common.port_prereqs emit_port_prereqs_set
  pure (a ++ (b ++ (c ++ d)))

abbrev pub common_guards : Option GuardSet → Option GuardSet → Option GuardSet
common_guards (some l) (some r) = some (intersect l r)
common_guards _ _ = none

unfoldable pub emit_or_hoist : Expr → Expr → M (List Patch)
emit_or_hoist left right = elim (common_guards (required_guards left) (required_guards right)) [
  | some common ↦ hoist_guards common
  | none ↦ throw panicked
]

-- The work stack: an expression to emit, or the rest of an operator.
pub data Work : Type 0 where
  emit : Expr → Work
  and_right : Expr → Work
  and_done : (left_failure : List Patch) (vlan_bump : Bool) → Work
  or_right : Expr → (hoist_failure : List Patch) (branch_facts : Facts) (x_writes_before : ℕ) → Work
  or_done :
      (left_success : List Patch) (ja_idx : ℕ) (left_facts : Facts) (hoist_failure : List Patch)
      → Work
  not_done : (entry_facts : Facts) (x_writes_before : ℕ) → Work

-- A finished operand: its patches, and whether it begins with a `vlan` check.
abbrev pub Done : Type 0
Done = Patches × Bool

abbrev pub bump : Bool → M (Unit {0})
bump b cg = ok (tt, (if b then record cg { vlan_depth = cg.vlan_depth + 1 } else cg))

abbrev pub unbump : Bool → M (Unit {0})
unbump b cg = ok (tt, (if b then record cg { vlan_depth = cg.vlan_depth - 1 } else cg))

-- Facts restored for another path; the transport offset is trusted only if X was not written since.
abbrev pub restored : Facts → ℕ → Codegen → Facts
restored f before cg = if cg.x_writes == before then f else record f { ports_ready = none }

-- The turns of the loop between two operands, each by the work that it pops.
unfoldable pub step_and_right : Done → M (List Patch × Bool)
step_and_right (left_p, vlan_bump) = do
  cg ← get
  resolve_all left_p.success (length cg.insns)
  bump vlan_bump
  pure (left_p.failure, vlan_bump)

unfoldable pub step_and_done : List Patch → Bool → Done → M Done
step_and_done left_failure vlan_bump (right_p, _) = do
  unbump vlan_bump
  pure (
    record { success = right_p.success; failure = concat left_failure right_p.failure },
    vlan_bump,
  )

-- Gives the left facts and the place of the inserted `ja`.
unfoldable pub step_or_right : Facts → ℕ → Done → M (Facts × ℕ)
step_or_right branch_facts x_writes_before (left_p, _) = do
  cg ← get
  set_facts (restored branch_facts x_writes_before cg)
  ja_idx ← push (ja 0)
  after ← get
  resolve_all left_p.failure (length after.insns)
  pure (cg.facts, ja_idx)

unfoldable pub step_or_done : List Patch → ℕ → Facts → List Patch → Done → M Done
step_or_done left_success ja_idx left_facts hoist_failure (right_p, _) = do
  cg ← get
  set_facts (meet_facts left_facts cg.facts)
  pure (
    record {
      success = concat (left_success ++ Patch.ja ja_idx ∷ []) right_p.success;
      failure = concat right_p.failure hoist_failure;
    },
    false,
  )

unfoldable pub step_not_done : Facts → ℕ → Done → M Done
step_not_done entry_facts x_writes_before (inner_p, _) = do
  cg ← get
  set_facts (restored entry_facts x_writes_before cg)
  ja_idx ← push (ja 0)
  after ← get
  resolve_all inner_p.failure (length after.insns)
  pure (record { success = []; failure = inner_p.success ++ Patch.ja ja_idx ∷ [] }, false)

-- The `while let` loop. `panicked` is also a missing operand or fuel that ran out.
unfoldable pub emit_loop : ℕ → List Work → List Done → M (List Done)
emit_loop fuel [] done = pure done
emit_loop zero (w ∷ work) done = throw panicked
emit_loop (suc fuel) (emit (Expr.primitive p) ∷ work) done = do
  q ← emit_primitive p
  emit_loop fuel work ((q, is_vlan p) ∷ done)
emit_loop (suc fuel) (emit (Expr.and left right) ∷ work) done =
    emit_loop fuel (emit left ∷ and_right right ∷ work) done
emit_loop (suc fuel) (emit (Expr.or left right) ∷ work) done = do
  hoist_failure ← emit_or_hoist left right
  cg ← get
  emit_loop fuel (emit left ∷ or_right right hoist_failure cg.facts cg.x_writes ∷ work) done
emit_loop (suc fuel) (emit (Expr.not inner) ∷ work) done = do
  cg ← get
  emit_loop fuel (emit inner ∷ not_done cg.facts cg.x_writes ∷ work) done
emit_loop (suc fuel) (and_right right ∷ work) (l ∷ done) = do
  r ← step_and_right l
  emit_loop fuel (emit right ∷ and_done r.0 r.1 ∷ work) done
emit_loop (suc fuel) (and_done left_failure vlan_bump ∷ work) (r ∷ done) = do
  d ← step_and_done left_failure vlan_bump r
  emit_loop fuel work (d ∷ done)
emit_loop (suc fuel) (or_right right hoist_failure branch_facts before ∷ work) (l ∷ done) = do
  r ← step_or_right branch_facts before l
  emit_loop fuel (emit right ∷ or_done l.0.success r.1 r.0 hoist_failure ∷ work) done
emit_loop (suc fuel) (or_done left_success ja_idx left_facts hoist_failure ∷ work) (r ∷ done) = do
  d ← step_or_done left_success ja_idx left_facts hoist_failure r
  emit_loop fuel work (d ∷ done)
emit_loop (suc fuel) (not_done entry_facts before ∷ work) (i ∷ done) = do
  d ← step_not_done entry_facts before i
  emit_loop fuel work (d ∷ done)
emit_loop (suc fuel) (w ∷ work) [] = throw panicked

-- The turns of the loop over an expression.
unfoldable pub emit_turns : Expr → ℕ
emit_turns (Expr.and l r) = 3 + emit_turns l + emit_turns r
emit_turns (Expr.or l r) = 3 + emit_turns l + emit_turns r
emit_turns (Expr.not e) = 2 + emit_turns e
emit_turns (Expr.primitive p) = 1

abbrev pub first_done : List Done → M Patches
first_done [] = throw panicked
first_done ((p, _) ∷ _) = pure p

unfoldable pub emit_expr : Expr → M Patches
emit_expr e = do done ← emit_loop (emit_turns e) (emit e ∷ []) []; first_done done

-- `compile` up to the peephole passes: the program with every patch resolved.
unfoldable pub assemble : Expr → M (List Insn)
assemble e = do
  patches ← emit_expr e
  cg ← get
  push (ret_k bpf_accept)
  push (ret_k bpf_drop)
  resolve_all patches.success (length cg.insns)
  resolve_all patches.failure (length cg.insns + 1)
  final ← get
  pure final.insns

abbrev pub optimized : List Insn → Result Program
optimized insns = elim (optimize insns) [ some q ↦ ok (record { insns = q }) | none ↦ err panicked ]

unfoldable pub compile : Expr → LinkType → Result Program
compile e link = elim (assemble e (new link)) [ ok (insns, _) ↦ optimized insns | err x ↦ err x ]
