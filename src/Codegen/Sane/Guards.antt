-- ===== src/Codegen/Sane/Guards.antt =====
-- pktbaffle/src/codegen.rs: filters whose numbers fit their types, and the guards of such filters.
use pktbaffle.Prelude.{
  ℕ, Bool, true, false, ◌&&◌, ◌<◌, ◌^◌, ◌≡◌, refl, arith, ltb, Option, some, none, ◌==◌,
  if◌then◌else◌,
}
use pktbaffle.Ast.{
  Expr, Primitive, Proto, ip, ip6, arp, rarp, tcp, udp, icmp, icmp6, igmp, sctp, num, ip6_proto, v4,
  v6, host, port, port_range, net6, proto, ether_host, ether_proto, ether_multicast, ip_broadcast,
  ip_multicast, ip6_multicast, vlan, mpls, pppoe_discovery, pppoe_session, ip_proto_chain,
  ip6_proto_chain, len, inbound, outbound, byte_access,
}
use pktbaffle.Codegen.Facts.{L4Set, both, both_sets, l4_eq}
use pktbaffle.Codegen.Guards.{
  GuardSet, union, intersect, or_else, primitive_guards, proto_guards, l4set_for,
}
use pktbaffle.Codegen.GuardWalk.{guards_of}
use pktbaffle.Codegen.Sane.Check.{SetFits, fits_proto}
use pktbaffle.Codegen.Sane.Addr.{fits_addr, fits_net, fits_ip6}
use pktbaffle.Codegen.Sane.Port.{l4set_for-SetFits}
use pktbaffle.Codegen.Sane.Link.{fits_mac, fits_option}
use pktbaffle.Codegen.Sane.Access.{fits_access}

-- The ranges that the field types of the source guarantee, as far as the emission relies on them: the
-- prefix length of an IPv6 network and the protocol before a port may be any (`Parser.Bounded` bounds
-- them for parsed filters).
unfoldable pub fits_primitive : Primitive → Bool
fits_primitive (proto p) = fits_proto p
fits_primitive (host a _) = fits_addr a
fits_primitive (Primitive.net n _) = fits_net n
fits_primitive (net6 n _) = fits_ip6 n.addr
fits_primitive (port k _ _) = ltb k (2 ^ 16)
fits_primitive (port_range lo hi _ _) = ltb lo (2 ^ 16) && ltb hi (2 ^ 16)
fits_primitive (ether_host m _) = fits_mac m
fits_primitive (ether_proto et) = ltb et (2 ^ 16)
fits_primitive ether_multicast = true
fits_primitive ip_broadcast = true
fits_primitive ip_multicast = true
fits_primitive ip6_multicast = true
fits_primitive (vlan id) = fits_option (2 ^ 16) id
fits_primitive (mpls l) = fits_option (2 ^ 32) l
fits_primitive pppoe_discovery = true
fits_primitive (pppoe_session id) = fits_option (2 ^ 16) id
fits_primitive (ip_proto_chain n) = ltb n (2 ^ 8)
fits_primitive (ip6_proto_chain n) = ltb n (2 ^ 8)
fits_primitive (len _ k) = ltb k (2 ^ 32)
fits_primitive inbound = true
fits_primitive outbound = true
fits_primitive (byte_access b) = fits_access b

unfoldable pub fits : Expr → Bool
fits (Expr.and l r) = fits l && fits r
fits (Expr.or l r) = fits l && fits r
fits (Expr.not e) = fits e
fits (Expr.primitive p) = fits_primitive p

abbrev pub Within : Option ℕ → Type 0
Within none = Unit
Within (some n) = n < 2 ^ 32

abbrev pub SetWithin : Option L4Set → Type 0
SetWithin none = Unit
SetWithin (some w) = SetFits w

pub record GuardsFit (g : GuardSet) : Type 0 where
  pub ethertype : Within g.ethertype
  pub ip4_proto : Within g.ip4_proto
  pub ip6_nh : Within g.ip6_nh
  pub port_prereqs : SetWithin g.port_prereqs

or_else-Within : (a b : Option ℕ) → Within a → Within b → Within (or_else a b)
or_else-Within none b h k = k
or_else-Within (some n) b h k = h

or_else-SetWithin : (a b : Option L4Set) → SetWithin a → SetWithin b → SetWithin (or_else a b)
or_else-SetWithin none b h k = k
or_else-SetWithin (some n) b h k = h

if-Within : (b : Bool) (n : ℕ) → n < 2 ^ 32 → Within (if b then some n else none)
if-Within true n h = h
if-Within false n h = tt

if-SetWithin : (b : Bool) (w : L4Set) → SetFits w → SetWithin (if b then some w else none)
if-SetWithin true w h = h
if-SetWithin false w h = tt

both-Within : (a b : Option ℕ) → Within a → Within (both a b)
unfolding both
both-Within none b h = tt
both-Within (some p) none h = tt
both-Within (some p) (some q) h = if-Within (p == q) p h

both_sets-SetWithin : (a b : Option L4Set) → SetWithin a → SetWithin (both_sets a b)
unfolding both_sets
both_sets-SetWithin none b h = tt
both_sets-SetWithin (some p) none h = tt
both_sets-SetWithin (some p) (some q) h = if-SetWithin (l4_eq p q) p h

union-GuardsFit : {a b : GuardSet} → GuardsFit a → GuardsFit b → GuardsFit (union a b)
unfolding union
union-GuardsFit {a} {b} h k = record {
  ethertype = or_else-Within a.ethertype b.ethertype h.ethertype k.ethertype;
  ip4_proto = or_else-Within a.ip4_proto b.ip4_proto h.ip4_proto k.ip4_proto;
  ip6_nh = or_else-Within a.ip6_nh b.ip6_nh h.ip6_nh k.ip6_nh;
  port_prereqs = or_else-SetWithin a.port_prereqs b.port_prereqs h.port_prereqs k.port_prereqs;
}

pub intersect-GuardsFit : (a b : GuardSet) → GuardsFit a → GuardsFit (intersect a b)
unfolding intersect
intersect-GuardsFit a b h = record {
  ethertype = both-Within a.ethertype b.ethertype h.ethertype;
  ip4_proto = both-Within a.ip4_proto b.ip4_proto h.ip4_proto;
  ip6_nh = both-Within a.ip6_nh b.ip6_nh h.ip6_nh;
  port_prereqs = both_sets-SetWithin a.port_prereqs b.port_prereqs h.port_prereqs;
}

abbrev guards_fit :
    (e p n : Option ℕ)
    → Within e
    → Within p
    → Within n
    → GuardsFit (record { ethertype = e; ip4_proto = p; ip6_nh = n; port_prereqs = none })
guards_fit e p n a b c = record { ethertype = a; ip4_proto = b; ip6_nh = c; port_prereqs = tt }

proto_guards-GuardsFit : (p : Proto) → fits_proto p ≡ true → GuardsFit (proto_guards p)
unfolding proto_guards
proto_guards-GuardsFit ip h = guards_fit (some 0x0800) none none (omega arith) tt tt
proto_guards-GuardsFit ip6 h = guards_fit (some 0x86dd) none none (omega arith) tt tt
proto_guards-GuardsFit arp h = guards_fit (some 0x0806) none none (omega arith) tt tt
proto_guards-GuardsFit rarp h = guards_fit (some 0x8035) none none (omega arith) tt tt
proto_guards-GuardsFit tcp h = guards_fit (some 0x0800) (some 6) none (omega arith) (omega arith) tt
proto_guards-GuardsFit udp h =
    guards_fit (some 0x0800) (some 17) none (omega arith) (omega arith) tt
proto_guards-GuardsFit icmp h =
    guards_fit (some 0x0800) (some 1) none (omega arith) (omega arith) tt
proto_guards-GuardsFit igmp h =
    guards_fit (some 0x0800) (some 2) none (omega arith) (omega arith) tt
proto_guards-GuardsFit sctp h =
    guards_fit (some 0x0800) (some 132) none (omega arith) (omega arith) tt
proto_guards-GuardsFit (num n) h =
    guards_fit (some 0x0800) (some n) none (omega arith) (ground arith) tt
proto_guards-GuardsFit icmp6 h =
    guards_fit (some 0x86dd) none (some 58) (omega arith) tt (omega arith)
proto_guards-GuardsFit (ip6_proto n) h =
    guards_fit (some 0x86dd) none (some n) (omega arith) tt (ground arith)

l4set_for-SetWithin : (pr : Option Proto) (o : Option L4Set) → l4set_for pr ≡ o → SetWithin o
l4set_for-SetWithin pr none e = tt
l4set_for-SetWithin pr (some w) e = l4set_for-SetFits pr w e

port_guards-GuardsFit :
    (pr : Option Proto)
    → GuardsFit
        (record { ethertype = none; ip4_proto = none; ip6_nh = none; port_prereqs = l4set_for pr })
port_guards-GuardsFit pr = record {
  ethertype = tt;
  ip4_proto = tt;
  ip6_nh = tt;
  port_prereqs = l4set_for-SetWithin pr (l4set_for pr) refl;
}

primitive_guards-GuardsFit :
    (p : Primitive) → fits_primitive p ≡ true → GuardsFit (primitive_guards p)
unfolding primitive_guards fits_primitive
primitive_guards-GuardsFit (proto p) h = proto_guards-GuardsFit p h
primitive_guards-GuardsFit (port k dir pr) h = port_guards-GuardsFit pr
primitive_guards-GuardsFit (port_range lo hi dir pr) h = port_guards-GuardsFit pr
primitive_guards-GuardsFit (host (v4 a) dir) h =
    guards_fit (some 0x0800) none none (omega arith) tt tt
primitive_guards-GuardsFit (host (v6 a) dir) h =
    guards_fit (some 0x86dd) none none (omega arith) tt tt
primitive_guards-GuardsFit (Primitive.net n dir) h =
    guards_fit (some 0x0800) none none (omega arith) tt tt
primitive_guards-GuardsFit (net6 n dir) h = guards_fit (some 0x86dd) none none (omega arith) tt tt
primitive_guards-GuardsFit (ether_host m dir) h = guards_fit none none none tt tt tt
primitive_guards-GuardsFit (ether_proto et) h = guards_fit (some et) none none (ground arith) tt tt
primitive_guards-GuardsFit ether_multicast h = guards_fit none none none tt tt tt
primitive_guards-GuardsFit ip_broadcast h = guards_fit (some 0x0800) none none (omega arith) tt tt
primitive_guards-GuardsFit ip_multicast h = guards_fit (some 0x0800) none none (omega arith) tt tt
primitive_guards-GuardsFit ip6_multicast h = guards_fit (some 0x86dd) none none (omega arith) tt tt
primitive_guards-GuardsFit (vlan id) h = guards_fit (some 0x8100) none none (omega arith) tt tt
primitive_guards-GuardsFit (mpls l) h = guards_fit none none none tt tt tt
primitive_guards-GuardsFit pppoe_discovery h =
    guards_fit (some 0x8863) none none (omega arith) tt tt
primitive_guards-GuardsFit (pppoe_session id) h =
    guards_fit (some 0x8864) none none (omega arith) tt tt
primitive_guards-GuardsFit (ip_proto_chain n) h =
    guards_fit (some 0x0800) (some n) none (omega arith) (ground arith) tt
primitive_guards-GuardsFit (ip6_proto_chain n) h =
    guards_fit (some 0x86dd) none (some n) (omega arith) tt (ground arith)
primitive_guards-GuardsFit (len op k) h = guards_fit none none none tt tt tt
primitive_guards-GuardsFit inbound h = guards_fit none none none tt tt tt
primitive_guards-GuardsFit outbound h = guards_fit none none none tt tt tt
primitive_guards-GuardsFit (byte_access b) h = guards_fit none none none tt tt tt

pub guards_of-GuardsFit : (e : Expr) → fits e ≡ true → GuardsFit (guards_of e)
unfolding guards_of fits
guards_of-GuardsFit (Expr.and l r) h =
    union-GuardsFit (guards_of-GuardsFit l (ground arith)) (guards_of-GuardsFit r (ground arith))
guards_of-GuardsFit (Expr.or l r) h =
    intersect-GuardsFit (guards_of l) (guards_of r) (guards_of-GuardsFit l (ground arith))
guards_of-GuardsFit (Expr.not e) h = guards_fit none none none tt tt tt
guards_of-GuardsFit (Expr.primitive p) h = primitive_guards-GuardsFit p h
