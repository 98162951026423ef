-- ===== src/Parser/Primitive.antt =====
-- pktbaffle/src/parser.rs: the filter primitives, chosen by their first token.
use pktbaffle.Prelude.{ℕ, ◌%◌, ◌^◌, Bool, true, false, Option, some, none, ltb, if◌then◌else◌}
use pktbaffle.Ast.{
  MacAddr, Dir, Proto, Layer, Primitive, src_or_dst, dst, src, src_and_dst, raw, proto, ether_host,
  ether_proto, ether_multicast, ip_broadcast, ip_multicast, ip6_multicast, ip_proto_chain,
  ip6_proto_chain, num, ip6_proto,
}
use pktbaffle.Lexer.Token.{Token}
use pktbaffle.Parser.Base.{
  P, ◌>>=◌, ◌>>◌, pure, throw, cur_tok, cur_is, eat, advance, parse_u32, session_id_out_of_range,
  expected_after_ether, expected_after_direction, expected_port_after,
}
use pktbaffle.Parser.Access.{parse_byte_access}
use pktbaffle.Parser.Address.{
  parse_mac, parse_proto_num, parse_host, parse_net, parse_port, parse_portrange,
}

abbrev pub broadcast_addr : MacAddr
broadcast_addr = record { b0 = 0xff; b1 = 0xff; b2 = 0xff; b3 = 0xff; b4 = 0xff; b5 = 0xff }

-- `self.eat(&op) && self.cur_tok() == Some(&Token::Dst)`.
abbrev pub op_then_dst : Token → P Bool
op_then_dst op = do found ← eat op; elim found [ true ↦ cur_is Token.dst | false ↦ pure false ]

-- After `src`, and after what follows it is not `and dst`.
unfoldable pub or_rest : P Dir
unfolding advance eat cur_is
or_rest = do
  either ← op_then_dst Token.or
  elim either [ true ↦ do advance; pure src_or_dst | false ↦ pure src ]

unfoldable pub src_rest : P Dir
unfolding advance eat cur_is or_rest
src_rest = do
  both ← op_then_dst Token.and
  elim both [ true ↦ do advance; pure src_and_dst | false ↦ or_rest ]

unfoldable pub dir_at : Option Token → P Dir
unfolding advance src_rest
dir_at (some Token.src) = do advance; src_rest
dir_at (some Token.dst) = do advance; pure dst
dir_at t = pure src_or_dst

unfoldable pub parse_dir : P Dir
unfolding cur_tok dir_at
parse_dir = do t ← cur_tok; dir_at t

-- `port` or `portrange` after a protocol, or what stands there without one.
unfoldable pub port_or : Dir → Proto → P Primitive → P Primitive
unfolding eat parse_port parse_portrange
port_or dir p other = do
  port ← eat Token.port
  elim port [
    | true ↦ parse_port dir (some p)
    | false ↦ do
      range ← eat Token.port_range
      elim range [ true ↦ parse_portrange dir (some p) | false ↦ other ]
  ]

abbrev pub no_port : Token → P Primitive
no_port word = do t ← cur_tok; throw (expected_port_after word t)

unfoldable pub after_dir_at : Dir → Option Token → P Primitive
unfolding advance parse_host parse_net parse_port parse_portrange port_or cur_tok
after_dir_at dir (some Token.host) = do advance; parse_host dir
after_dir_at dir (some Token.net) = do advance; parse_net dir
after_dir_at dir (some Token.port) = do advance; parse_port dir none
after_dir_at dir (some Token.port_range) = do advance; parse_portrange dir none
after_dir_at dir (some Token.tcp) = do advance; port_or dir Proto.tcp (no_port Token.tcp)
after_dir_at dir (some Token.udp) = do advance; port_or dir Proto.udp (no_port Token.udp)
after_dir_at dir (some Token.sctp) = do advance; port_or dir Proto.sctp (no_port Token.sctp)
after_dir_at dir (some (Token.ipv4 _ _)) = parse_host dir
after_dir_at dir (some (Token.ipv6 _)) = parse_host dir
after_dir_at dir (some (Token.num _)) = parse_host dir
after_dir_at dir t = throw (expected_after_direction t)

unfoldable pub parse_after_dir : Dir → P Primitive
unfolding cur_tok after_dir_at
parse_after_dir dir = do t ← cur_tok; after_dir_at dir t

-- The ethertype of a protocol keyword.
abbrev pub named_ethertype : Option Token → Option ℕ
named_ethertype (some Token.ip) = some 0x0800
named_ethertype (some Token.ip6) = some 0x86dd
named_ethertype (some Token.arp) = some 0x0806
named_ethertype (some Token.rarp) = some 0x8035
named_ethertype _ = none

-- `parse_u32()? as u16` keeps the low 16 bits.
unfoldable pub parse_ethertype : P ℕ
unfolding cur_tok advance parse_u32
parse_ethertype = do
  t ← cur_tok
  elim (named_ethertype t) [
    | some n ↦ do advance; pure n
    | none ↦ do n ← parse_u32; pure (n % 2 ^ 16)
  ]

unfoldable pub ether_at : Dir → Option Token → P Primitive
unfolding advance parse_mac parse_ethertype
ether_at dir (some Token.host) = do advance; mac ← parse_mac; pure (ether_host mac dir)
ether_at dir (some (Token.mac _)) = do mac ← parse_mac; pure (ether_host mac dir)
ether_at dir (some Token.broadcast) = do advance; pure (ether_host broadcast_addr dst)
ether_at dir (some Token.multicast) = do advance; pure ether_multicast
ether_at dir (some Token.proto) = do advance; n ← parse_ethertype; pure (ether_proto n)
ether_at dir (some Token.ip) = do advance; pure (ether_proto 0x0800)
ether_at dir (some Token.ip6) = do advance; pure (ether_proto 0x86dd)
ether_at dir (some Token.arp) = do advance; pure (ether_proto 0x0806)
ether_at dir (some Token.rarp) = do advance; pure (ether_proto 0x8035)
ether_at dir t = throw (expected_after_ether t)

-- A keyword is taken; if `[` follows, a byte access of the layer, else the rest.
unfoldable pub access_or : Layer → P Primitive → P Primitive
unfolding advance cur_is parse_byte_access
access_or layer other = do
  advance
  bracket ← cur_is Token.lbracket
  elim bracket [ true ↦ parse_byte_access layer | false ↦ other ]

unfoldable pub parse_ether_prim : P Primitive
unfolding access_or parse_dir cur_tok ether_at
parse_ether_prim = access_or raw (do dir ← parse_dir; t ← cur_tok; ether_at dir t)

-- After `ip`, and after `ip6`.
unfoldable pub ip_rest : P Primitive
unfolding eat parse_proto_num
ip_rest = do
  is_proto ← eat Token.proto
  elim is_proto [
    | true ↦ do n ← parse_proto_num; pure (proto (num n))
    | false ↦ do
      chain ← eat Token.protochain
      elim chain [
        | true ↦ do n ← parse_proto_num; pure (ip_proto_chain n)
        | false ↦ do
          all ← eat Token.broadcast
          elim all [
            | true ↦ pure ip_broadcast
            | false ↦ do
              group ← eat Token.multicast
              elim group [ true ↦ pure ip_multicast | false ↦ pure (proto Proto.ip) ]
          ]
      ]
  ]

unfoldable pub ip6_rest : P Primitive
unfolding eat parse_proto_num
ip6_rest = do
  is_proto ← eat Token.proto
  elim is_proto [
    | true ↦ do n ← parse_proto_num; pure (proto (ip6_proto n))
    | false ↦ do
      chain ← eat Token.protochain
      elim chain [
        | true ↦ do n ← parse_proto_num; pure (ip6_proto_chain n)
        | false ↦ do
          group ← eat Token.multicast
          elim group [ true ↦ pure ip6_multicast | false ↦ pure (proto Proto.ip6) ]
      ]
  ]

-- `if let Some(&Token::Num(n)) = self.cur_tok()`, with the number narrowed to `limit` values.
unfoldable pub num_at : ℕ → Option Token → P (Option ℕ)
unfolding advance
num_at limit (some (Token.num n)) = do advance; pure (some (n % limit))
num_at limit t = pure none

unfoldable pub optional_num : ℕ → P (Option ℕ)
unfolding cur_tok num_at
optional_num limit = do t ← cur_tok; num_at limit t

unfoldable pub session_at : Option Token → P (Option ℕ)
unfolding advance
session_at (some (Token.num n)) =
    if ltb 0xffff n then throw (session_id_out_of_range n) else (do advance; pure (some n))
session_at t = pure none

unfoldable pub session_id : P (Option ℕ)
unfolding cur_tok session_at
session_id = do t ← cur_tok; session_at t
