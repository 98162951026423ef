-- ===== src/Parser/Keyword.antt =====
-- pktbaffle/src/parser.rs: `parse_primitive`, the choice of a primitive by its first token.
use pktbaffle.Prelude.{ℕ, ◌%◌, ◌^◌, Option, some, none, ltb, if◌then◌else◌}
use pktbaffle.Ast.{
  Primitive, CmpOp, Proto, Layer, src_or_dst, dst, raw, trans, proto, ether_host, ether_multicast,
  vlan, mpls, pppoe_discovery, pppoe_session, len, inbound, outbound, num,
}
use pktbaffle.Lexer.Token.{Token}
use pktbaffle.Parser.Base.{
  P, ◌>>=◌, ◌>>◌, pure, throw, cur_tok, advance, parse_u32, expected_primitive, gateway_unsupported,
  short_address,
}
use pktbaffle.Parser.Access.{parse_cmpop, parse_byte_access}
use pktbaffle.Parser.Address.{parse_host, parse_net, parse_port, parse_portrange}
use pktbaffle.Parser.Primitive.{
  broadcast_addr, parse_dir, port_or, parse_after_dir, access_or, parse_ether_prim, ip_rest,
  ip6_rest, optional_num, session_id,
}

unfoldable pub bare : Primitive → P Primitive
unfolding advance
bare p = do advance; pure p

-- A bare IPv4 address needs all four octets.
unfoldable pub bare_address : ℕ → P Primitive
unfolding parse_host
bare_address parts = if ltb parts 4 then throw short_address else parse_host src_or_dst

-- The arms for encapsulations, directions, `ether`, addresses and raw byte access.
unfoldable pub other_at : Option Token → P Primitive
unfolding advance bare parse_byte_access optional_num session_id parse_ether_prim parse_dir
    parse_after_dir parse_host parse_net parse_port parse_portrange bare_address
other_at (some Token.vlan) = do advance; id ← optional_num (2 ^ 16); pure (vlan id)
other_at (some Token.mpls) = do advance; label ← optional_num (2 ^ 32); pure (mpls label)
other_at (some Token.pppoed) = bare pppoe_discovery
other_at (some Token.pppoes) = do advance; id ← session_id; pure (pppoe_session id)
other_at (some Token.inbound) = bare inbound
other_at (some Token.outbound) = bare outbound
other_at (some Token.gateway) = do advance; advance; throw gateway_unsupported
other_at (some Token.ether) = parse_ether_prim
other_at (some Token.src) = do dir ← parse_dir; parse_after_dir dir
other_at (some Token.dst) = do dir ← parse_dir; parse_after_dir dir
other_at (some Token.host) = do advance; parse_host src_or_dst
other_at (some Token.net) = do advance; parse_net src_or_dst
other_at (some Token.port) = do advance; parse_port src_or_dst none
other_at (some Token.port_range) = do advance; parse_portrange src_or_dst none
other_at (some (Token.ipv4 _ parts)) = bare_address parts
other_at (some (Token.ipv6 _)) = parse_host src_or_dst
other_at (some Token.lbracket) = parse_byte_access raw
other_at t = throw (expected_primitive t)

-- The arms for lengths and protocols.
unfoldable pub primitive_at : Option Token → P Primitive
unfolding advance parse_u32 parse_cmpop bare access_or ip_rest ip6_rest port_or other_at
primitive_at (some Token.less) = do advance; n ← parse_u32; pure (len CmpOp.le n)
primitive_at (some Token.greater) = do advance; n ← parse_u32; pure (len CmpOp.ge n)
primitive_at (some Token.len) = do advance; op ← parse_cmpop; n ← parse_u32; pure (len op n)
primitive_at (some Token.broadcast) = bare (ether_host broadcast_addr dst)
primitive_at (some Token.multicast) = bare ether_multicast
primitive_at (some Token.ip) = access_or Layer.net ip_rest
primitive_at (some Token.ip6) = access_or Layer.net ip6_rest
primitive_at (some Token.arp) = bare (proto Proto.arp)
primitive_at (some Token.rarp) = bare (proto Proto.rarp)
primitive_at (some Token.icmp) = access_or trans (pure (proto Proto.icmp))
primitive_at (some Token.icmp6) = access_or trans (pure (proto Proto.icmp6))
primitive_at (some Token.igmp) = bare (proto Proto.igmp)
primitive_at (some Token.sctp) = do advance; port_or src_or_dst Proto.sctp (pure (proto Proto.sctp))
primitive_at (some Token.tcp) =
    access_or trans (port_or src_or_dst Proto.tcp (pure (proto Proto.tcp)))
primitive_at (some Token.udp) =
    access_or trans (port_or src_or_dst Proto.udp (pure (proto Proto.udp)))
primitive_at (some Token.proto) = do advance; n ← parse_u32; pure (proto (num (n % 2 ^ 8)))
primitive_at (some Token.ah) = bare (proto (num 51))
primitive_at (some Token.esp) = bare (proto (num 50))
primitive_at (some Token.pim) = bare (proto (num 103))
primitive_at (some Token.igrp) = bare (proto (num 9))
primitive_at (some Token.vrrp) = bare (proto (num 112))
primitive_at t = other_at t

unfoldable pub parse_primitive : P Primitive
unfolding cur_tok primitive_at
parse_primitive = do t ← cur_tok; primitive_at t
