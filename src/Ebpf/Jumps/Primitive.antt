-- ===== src/Ebpf/Jumps/Primitive.antt =====
-- pktbaffle/src/ebpf_codegen.rs: every primitive keeps the invariant.
use pktbaffle.Prelude.{refl}
use pktbaffle.Ast.{Primitive}
use pktbaffle.Ebpf.Primitive.{emit_primitive}
use pktbaffle.Ebpf.Jumps.{BothBelow, failed, Keeps}
use pktbaffle.Ebpf.Jumps.Load.{emit_ethertype-Post, emit_ip4_l4-Post, emit_ip6_l4-Post}
use pktbaffle.Ebpf.Jumps.Transport.{emit_proto-Post, emit_port-Post, emit_portrange-Post}
use pktbaffle.Ebpf.Jumps.Addr.{emit_host-Post, emit_net-Post, emit_net6-Post}
use pktbaffle.Ebpf.Jumps.Link.{
  emit_ether_host-Post, emit_ether_multicast-Post, emit_ip_broadcast-Post, emit_ip_multicast-Post,
  emit_ip6_multicast-Post, emit_vlan-Post, emit_mpls-Post, emit_pppoe_session-Post,
}
use pktbaffle.Ebpf.Jumps.Access.{emit_len-Post, emit_byte_access-Post}

pub emit_primitive-Post : (p : Primitive) → Keeps BothBelow (emit_primitive p)
unfolding emit_primitive
emit_primitive-Post (Primitive.proto p) cg v = emit_proto-Post p cg v
emit_primitive-Post (Primitive.host addr dir) cg v = emit_host-Post addr dir cg v
emit_primitive-Post (Primitive.net n dir) cg v = emit_net-Post n dir cg v
emit_primitive-Post (Primitive.net6 n dir) cg v = emit_net6-Post n dir cg v
emit_primitive-Post (Primitive.port p dir pr) cg v = emit_port-Post p dir pr cg v
emit_primitive-Post (Primitive.port_range lo hi dir pr) cg v = emit_portrange-Post lo hi dir pr cg v
emit_primitive-Post (Primitive.ether_host addr dir) cg v = emit_ether_host-Post addr dir cg v
emit_primitive-Post (Primitive.ether_proto et) cg v = emit_ethertype-Post et cg v
emit_primitive-Post Primitive.ether_multicast cg v = emit_ether_multicast-Post cg v
emit_primitive-Post Primitive.ip_broadcast cg v = emit_ip_broadcast-Post cg v
emit_primitive-Post Primitive.ip_multicast cg v = emit_ip_multicast-Post cg v
emit_primitive-Post Primitive.ip6_multicast cg v = emit_ip6_multicast-Post cg v
emit_primitive-Post (Primitive.vlan id) cg v = emit_vlan-Post id cg v
emit_primitive-Post (Primitive.mpls label) cg v = emit_mpls-Post label cg v
emit_primitive-Post Primitive.pppoe_discovery cg v = emit_ethertype-Post 0x8863 cg v
emit_primitive-Post (Primitive.pppoe_session id) cg v = emit_pppoe_session-Post id cg v
emit_primitive-Post (Primitive.ip_proto_chain n) cg v = emit_ip4_l4-Post n cg v
emit_primitive-Post (Primitive.ip6_proto_chain n) cg v = emit_ip6_l4-Post n cg v
emit_primitive-Post (Primitive.len op value) cg v = emit_len-Post op value cg v
emit_primitive-Post (Primitive.byte_access ba) cg v = emit_byte_access-Post ba cg v
emit_primitive-Post Primitive.inbound cg v = failed refl
emit_primitive-Post Primitive.outbound cg v = failed refl
