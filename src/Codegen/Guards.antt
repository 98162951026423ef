-- ===== src/Codegen/Guards.antt =====
-- pktbaffle/src/codegen.rs: the guards that an expression requires on every accepting path.
-- The memo of the source caches the result for a node; the model computes it anew.
use pktbaffle.Prelude.{ℕ, zero, suc, ◌+◌, List, [], ◌∷◌, Option, none, some}
use pktbaffle.Ast.{
  Expr, Primitive, Proto, v4, v6, ip, ip6, arp, rarp, tcp, udp, icmp, icmp6, igmp, sctp, num,
  ip6_proto, host, port, port_range, net6, proto, ether_host, ether_proto, ether_multicast,
  ip_broadcast, ip_multicast, ip6_multicast, vlan, mpls, pppoe_discovery, pppoe_session,
  ip_proto_chain, ip6_proto_chain, len, inbound, outbound, byte_access,
}
use pktbaffle.Codegen.Facts.{L4Set, one, tcp_or_udp, both, both_sets}

pub record GuardSet : Type 0 where
  pub ethertype : Option ℕ
  pub ip4_proto : Option ℕ
  pub ip6_nh : Option ℕ
  pub port_prereqs : Option L4Set

abbrev pub no_guards : GuardSet
no_guards = record { ethertype = none; ip4_proto = none; ip6_nh = none; port_prereqs = none }

-- `Option::or`.
abbrev pub or_else {ℓ} : {A : Type ℓ} → Option A → Option A → Option A
or_else (some a) o = some a
or_else none o = o

unfoldable pub union : GuardSet → GuardSet → GuardSet
union a b = record {
  ethertype = or_else a.ethertype b.ethertype;
  ip4_proto = or_else a.ip4_proto b.ip4_proto;
  ip6_nh = or_else a.ip6_nh b.ip6_nh;
  port_prereqs = or_else a.port_prereqs b.port_prereqs;
}

unfoldable pub intersect : GuardSet → GuardSet → GuardSet
intersect a b = record {
  ethertype = both a.ethertype b.ethertype;
  ip4_proto = both a.ip4_proto b.ip4_proto;
  ip6_nh = both a.ip6_nh b.ip6_nh;
  port_prereqs = both_sets a.port_prereqs b.port_prereqs;
}

-- `l4set_for(…)`; `none` is its error, a qualifier that no port filter has.
unfoldable pub l4set_for : Option Proto → Option L4Set
l4set_for none = some tcp_or_udp
l4set_for (some tcp) = some (one 6)
l4set_for (some udp) = some (one 17)
l4set_for (some sctp) = some (one 132)
l4set_for (some pr) = none

abbrev pub ethertype_guard : ℕ → GuardSet
ethertype_guard et = record no_guards { ethertype = some et }

abbrev pub ip4_guards : ℕ → GuardSet
ip4_guards n = record no_guards { ethertype = some 0x0800; ip4_proto = some n }

abbrev pub ip6_guards : ℕ → GuardSet
ip6_guards n = record no_guards { ethertype = some 0x86dd; ip6_nh = some n }

unfoldable pub proto_guards : Proto → GuardSet
proto_guards ip = ethertype_guard 0x0800
proto_guards ip6 = ethertype_guard 0x86dd
proto_guards arp = ethertype_guard 0x0806
proto_guards rarp = ethertype_guard 0x8035
proto_guards tcp = ip4_guards 6
proto_guards udp = ip4_guards 17
proto_guards icmp = ip4_guards 1
proto_guards igmp = ip4_guards 2
proto_guards sctp = ip4_guards 132
proto_guards (num n) = ip4_guards n
proto_guards icmp6 = ip6_guards 58
proto_guards (ip6_proto n) = ip6_guards n

unfoldable pub primitive_guards : Primitive → GuardSet
primitive_guards (proto p) = proto_guards p
primitive_guards (host (v4 _) _) = ethertype_guard 0x0800
primitive_guards (host (v6 _) _) = ethertype_guard 0x86dd
primitive_guards (Primitive.net _ _) = ethertype_guard 0x0800
primitive_guards ip_broadcast = ethertype_guard 0x0800
primitive_guards ip_multicast = ethertype_guard 0x0800
primitive_guards (net6 _ _) = ethertype_guard 0x86dd
primitive_guards ip6_multicast = ethertype_guard 0x86dd
primitive_guards (port _ _ pr) = record no_guards { port_prereqs = l4set_for pr }
primitive_guards (port_range _ _ _ pr) = record no_guards { port_prereqs = l4set_for pr }
primitive_guards (ether_proto et) = ethertype_guard et
primitive_guards (vlan _) = ethertype_guard 0x8100
primitive_guards pppoe_discovery = ethertype_guard 0x8863
primitive_guards (pppoe_session _) = ethertype_guard 0x8864
primitive_guards (ip_proto_chain n) = ip4_guards n
primitive_guards (ip6_proto_chain n) = ip6_guards n
primitive_guards (mpls _) = no_guards
primitive_guards (ether_host _ _) = no_guards
primitive_guards ether_multicast = no_guards
primitive_guards (len _ _) = no_guards
primitive_guards (byte_access _) = no_guards
primitive_guards inbound = no_guards
primitive_guards outbound = no_guards

-- The post-order walk with its stack of steps and its stack of results.
pub data WalkStep : Type 0 where
  visit : Expr → WalkStep
  combine_and combine_or : WalkStep

unfoldable pub walk_guards : ℕ → List WalkStep → List GuardSet → Option (List GuardSet)
walk_guards fuel [] done = some done
walk_guards zero (step ∷ todo) done = none
walk_guards (suc fuel) (visit (Expr.and l r) ∷ todo) done =
    walk_guards fuel (visit l ∷ visit r ∷ combine_and ∷ todo) done
walk_guards (suc fuel) (visit (Expr.or l r) ∷ todo) done =
    walk_guards fuel (visit l ∷ visit r ∷ combine_or ∷ todo) done
walk_guards (suc fuel) (visit (Expr.not e) ∷ todo) done = walk_guards fuel todo (no_guards ∷ done)
walk_guards (suc fuel) (visit (Expr.primitive p) ∷ todo) done =
    walk_guards fuel todo (primitive_guards p ∷ done)
walk_guards (suc fuel) (combine_and ∷ todo) (r ∷ l ∷ done) =
    walk_guards fuel todo (union l r ∷ done)
walk_guards (suc fuel) (combine_or ∷ todo) (r ∷ l ∷ done) =
    walk_guards fuel todo (intersect l r ∷ done)
walk_guards (suc fuel) (combine_and ∷ todo) _ = none
walk_guards (suc fuel) (combine_or ∷ todo) _ = none

-- The turns of the walk over an expression.
unfoldable pub walk_turns : Expr → ℕ
walk_turns (Expr.and l r) = 2 + walk_turns l + walk_turns r
walk_turns (Expr.or l r) = 2 + walk_turns l + walk_turns r
walk_turns (Expr.not e) = 1
walk_turns (Expr.primitive p) = 1

-- `none` is an operand that is missing or fuel that ran out.
abbrev pub top : List GuardSet → Option GuardSet
top [] = none
top (g ∷ _) = some g

unfoldable pub required_guards : Expr → Option GuardSet
required_guards e = elim (walk_guards (walk_turns e) (visit e ∷ []) []) [
  | none ↦ none
  | some done ↦ top done
]
