-- ===== src/Ast.antt =====
-- pktbaffle/src/ast.rs: the filter expressions, and the operations on their trees.
-- An `Ipv4Addr` is its 32-bit number, an `Ipv6Addr` the list of its eight 16-bit segments. An `i32`
-- offset is its bit pattern, a number below 2 ^ 32, since the code only casts it to `u32`.
pub mod Tree
mod Tests
use pktbaffle.Prelude.{ℕ, ◌-◌, ◌*◌, ◌%◌, ◌^◌, List, Option, Bool, ◌==◌, if◌then◌else◌}

pub data Dir : Type 0 where
  src_or_dst src dst src_and_dst : Dir

pub data IpAddr : Type 0 where
  v4 : ℕ → IpAddr
  v6 : List ℕ → IpAddr

pub record IpNet : Type 0 where
  pub addr : ℕ
  pub mask : ℕ

pub record Ipv6Net : Type 0 where
  pub addr : List ℕ
  pub prefix_len : ℕ

-- `!0u32 << (32 - prefix_len)`, for a length of at most 32.
unfoldable pub from_prefix : ℕ → ℕ → IpNet
from_prefix addr prefix_len = record {
  addr = addr;
  mask = if prefix_len == 0 then 0 else (2 ^ 32 - 1) * 2 ^ (32 - prefix_len) % 2 ^ 32;
}

-- The six octets of a MAC address.
pub record MacAddr : Type 0 where
  pub b0 : ℕ
  pub b1 : ℕ
  pub b2 : ℕ
  pub b3 : ℕ
  pub b4 : ℕ
  pub b5 : ℕ

pub data Proto : Type 0 where
  ip ip6 arp rarp tcp udp icmp icmp6 igmp sctp : Proto
  num ip6_proto : ℕ → Proto

pub data ArithOp : Type 0 where
  add sub mul div modulo and or xor shl shr : ArithOp

pub data CmpOp : Type 0 where
  eq ne lt le gt ge bit_and : CmpOp

pub data AccessSize : Type 0 where
  byte half word : AccessSize

pub data Layer : Type 0 where
  raw net trans : Layer

pub record ByteLoad : Type 0 where
  pub layer : Layer
  pub offset : ℕ
  pub size : AccessSize

pub data CmpRhs : Type 0 where
  const : ℕ → CmpRhs
  load : ByteLoad → CmpRhs

pub record ByteAccess : Type 0 where
  pub layer : Layer
  pub offset : ℕ
  pub size : AccessSize
  pub alu_ops : List (ArithOp × ℕ)
  pub op : CmpOp
  pub rhs : CmpRhs

pub data Primitive : Type 0 where
  host : IpAddr → Dir → Primitive
  port : ℕ → Dir → Option Proto → Primitive
  port_range : (lo hi : ℕ) → Dir → Option Proto → Primitive
  net : IpNet → Dir → Primitive
  net6 : Ipv6Net → Dir → Primitive
  proto : Proto → Primitive
  ether_host : MacAddr → Dir → Primitive
  ether_proto : ℕ → Primitive
  ether_multicast ip_broadcast ip_multicast ip6_multicast : Primitive
  vlan : Option ℕ → Primitive
  mpls : Option ℕ → Primitive
  pppoe_discovery : Primitive
  pppoe_session : Option ℕ → Primitive
  ip_proto_chain ip6_proto_chain : ℕ → Primitive
  len : CmpOp → ℕ → Primitive
  inbound outbound : Primitive
  byte_access : ByteAccess → Primitive

pub data Expr : Type 0 where
  and or : Expr → Expr → Expr
  not : Expr → Expr
  primitive : Primitive → Expr
