-- ===== src/Parser/Address.antt =====
-- pktbaffle/src/parser.rs: addresses, networks, ports and protocol numbers.
use pktbaffle.Prelude.{
  ℕ, zero, suc, ◌+◌, ◌-◌, ◌*◌, ◌/◌, ◌%◌, ◌^◌, true, false, List, [], ◌∷◌, Option, some, none, not,
  ltb, leb, ◌==◌, if◌then◌else◌, bit_and, get_elem?, ◌&&◌,
}
use pktbaffle.Ast.{
  IpAddr, v4, v6, IpNet, from_prefix, MacAddr, Proto, Dir, Primitive, host, net6, port, port_range,
}
use pktbaffle.Lexer.Token.{Token}
use pktbaffle.Parser.Base.{
  P, ◌>>=◌, ◌>>◌, pure, throw, or_throw, cur_tok, eat, advance, expect, parse_u32, parse_u16, ok,
  err, panicked, mask_syntax_for_networks_only, prefix_len_out_of_range, expected_prefix_len,
  expected_network, expected_ipv4_network, non_network_bits, net_range_unsupported,
  expected_netmask, expected_ip, expected_mac, proto_out_of_range, out_of_fuel,
}

-- `u32::from(Ipv4Addr::from(octs))`, and `u128::from` of the segments.
abbrev pub big_endian : ℕ → List ℕ → ℕ → ℕ
big_endian base [] acc = acc
big_endian base (x ∷ xs) acc = big_endian base xs (acc * base + x)

abbrev pub of_octets : List ℕ → ℕ
of_octets octs = big_endian (2 ^ 8) octs 0

abbrev pub u128_of : List ℕ → ℕ
u128_of segs = big_endian (2 ^ 16) segs 0

-- `!0u32 << (32 - 8 * parts)`, for 1 to 4 parts.
abbrev pub parts_mask : ℕ → ℕ
parts_mask parts = (2 ^ 32 - 1) * 2 ^ (32 - 8 * parts) % 2 ^ 32

-- `addr & !mask` on 32 bits.
abbrev pub outside : ℕ → ℕ → ℕ
outside addr mask = bit_and addr (2 ^ 32 - 1 - mask)

abbrev pub ip_at : Option Token → P IpAddr
ip_at (some (Token.ipv4 octs _)) = pure (v4 (of_octets octs))
ip_at (some (Token.ipv6 a)) = pure (v6 a)
ip_at (some (Token.num n)) =
    if leb n (2 ^ 32 - 1) then pure (v4 n) else throw (expected_ip (some (Token.num n)))
ip_at t = throw (expected_ip t)

unfoldable pub parse_ip : P IpAddr
unfolding advance
parse_ip = do t ← advance; ip_at t

abbrev pub mac_at : Option Token → P MacAddr
mac_at (some (Token.mac m)) = pure m
mac_at t = throw (expected_mac t)

unfoldable pub parse_mac : P MacAddr
unfolding advance
parse_mac = do t ← advance; mac_at t

abbrev pub named_proto : Option Token → Option ℕ
named_proto (some Token.tcp) = some 6
named_proto (some Token.udp) = some 17
named_proto (some Token.icmp) = some 1
named_proto (some Token.icmp6) = some 58
named_proto (some Token.igmp) = some 2
named_proto (some Token.sctp) = some 132
named_proto (some Token.ah) = some 51
named_proto (some Token.esp) = some 50
named_proto (some Token.pim) = some 103
named_proto (some Token.igrp) = some 9
named_proto (some Token.vrrp) = some 112
named_proto _ = none

unfoldable pub parse_proto_num : P ℕ
unfolding cur_tok advance parse_u32
parse_proto_num = do
  t ← cur_tok
  elim (named_proto t) [
    | some n ↦ do advance; pure n
    | none ↦ do n ← parse_u32; if ltb 0xff n then throw proto_out_of_range else pure n
  ]

-- The offset of the `/` before: an index out of bounds panics.
abbrev pub slash_offset : P ℕ
slash_offset s = elim (get_elem? s.tokens (s.pos - 1)) [
  | some x ↦ ok (x.offset, s)
  | none ↦ err panicked
]

abbrev pub length_at : (max slash : ℕ) → Option Token → P ℕ
length_at max slash (some (Token.num n)) =
    if leb n max then pure n else throw (prefix_len_out_of_range max n)
length_at max slash t = throw (expected_prefix_len slash)

unfoldable pub parse_prefix_len : ℕ → P ℕ
unfolding advance
parse_prefix_len max = do slash ← slash_offset; t ← advance; length_at max slash t

abbrev pub short_net : Option Token → Option IpNet
short_net (some (Token.ipv4 octs parts)) =
    if leb 2 parts && leb parts 3
    then some (record { addr = of_octets octs; mask = parts_mask parts })
    else none
short_net _ = none

-- The `/128` that may follow an IPv6 address.
unfoldable pub host_length : IpAddr → P (Unit {0})
unfolding eat parse_prefix_len
host_length (v4 a) = pure tt
host_length (v6 a) = do
  slash ← eat Token.slash
  elim slash [
    | true ↦ do
      n ← parse_prefix_len 128
      if n == 128 then pure tt else throw mask_syntax_for_networks_only
    | false ↦ pure tt
  ]

unfoldable pub parse_host : Dir → P Primitive
unfolding cur_tok advance parse_ip host_length
parse_host dir = do
  t ← cur_tok
  elim (short_net t) [
    | some n ↦ do advance; pure (Primitive.net n dir)
    | none ↦ do addr ← parse_ip; host_length addr; pure (host addr dir)
  ]

-- `while addr != 0 && addr & 0xff00_0000 == 0 { addr <<= 8; mask <<= 8 }`.
unfoldable pub shift_net : ℕ → ℕ → ℕ → Option IpNet
shift_net zero addr mask = none
shift_net (suc fuel) addr mask =
    let rest = shift_net fuel (addr * 2 ^ 8 % 2 ^ 32) (mask * 2 ^ 8 % 2 ^ 32) in
    if not (addr == 0) && (bit_and addr 0xff000000 == 0)
    then rest
    else some (record { addr = addr; mask = mask })

-- `u128::MAX.checked_shr(prefix_len).unwrap_or(0)`.
abbrev pub host_mask : ℕ → ℕ
host_mask prefix_len = if ltb prefix_len 128 then (2 ^ 128 - 1) / 2 ^ prefix_len else 0

unfoldable pub net6_length : P ℕ
unfolding eat parse_prefix_len
net6_length = do
  slash ← eat Token.slash
  elim slash [ true ↦ parse_prefix_len 128 | false ↦ pure 128 ]

unfoldable pub mask_at : Option Token → P ℕ
mask_at (some (Token.ipv4 m _)) = pure (of_octets m)
mask_at _ = throw expected_netmask

-- The mask of an IPv4 network: `/len`, `mask <netmask>`, or 8 bits for each octet written.
unfoldable pub net_mask : ℕ → ℕ → P ℕ
unfolding eat parse_prefix_len from_prefix advance mask_at
net_mask addr parts = do
  slash ← eat Token.slash
  elim slash [
    | true ↦ do
      n ← parse_prefix_len 32
      (let mask = (from_prefix addr n).mask in
          if outside addr mask == 0 then pure mask else throw non_network_bits)
    | false ↦ do
      word ← eat Token.mask
      elim word [
        | true ↦ do
          t ← advance
          m ← mask_at t
          (if outside addr m == 0 then pure m else throw non_network_bits)
        | false ↦ pure (parts_mask parts)
      ]
  ]

unfoldable pub net_at : Dir → Option Token → P Primitive
unfolding eat net_mask net6_length shift_net
net_at dir (some (Token.ipv4 octs parts)) = do
  minus ← eat Token.minus
  elim minus [
    | true ↦ throw net_range_unsupported
    | false ↦ do
      mask ← net_mask (of_octets octs) parts
      pure (Primitive.net (record { addr = of_octets octs; mask = mask }) dir)
  ]
net_at dir (some (Token.num n)) =
    if ltb (2 ^ 32 - 1) n then throw (expected_ipv4_network (some (Token.num n))) else (do
      found ← or_throw out_of_fuel (shift_net 5 n (2 ^ 32 - 1))
      pure (Primitive.net found dir))
net_at dir (some (Token.ipv6 addr)) = do
  prefix_len ← net6_length
  (if bit_and (u128_of addr) (host_mask prefix_len) == 0
      then pure (net6 (record { addr = addr; prefix_len = prefix_len }) dir)
      else throw non_network_bits)
net_at dir t = throw (expected_network t)

unfoldable pub parse_net : Dir → P Primitive
unfolding advance net_at
parse_net dir = do t ← advance; net_at dir t

unfoldable pub parse_port : Dir → Option Proto → P Primitive
unfolding parse_u16
parse_port dir proto = do p ← parse_u16; pure (port p dir proto)

unfoldable pub parse_portrange : Dir → Option Proto → P Primitive
unfolding parse_u16 expect
parse_portrange dir proto = do
  lo ← parse_u16
  expect Token.minus
  hi ← parse_u16
  pure (port_range lo hi dir proto)
