-- ===== src/Codegen/Facts.antt =====
-- pktbaffle/src/codegen.rs: link types, protocol sets, and the facts proven on a path.
use pktbaffle.Prelude.{ℕ, Bool, true, false, ◌&&◌, ◌||◌, Option, none, some, ◌==◌, if◌then◌else◌}

pub data LinkType : Type 0 where
  ethernet raw_ip linux_sll : LinkType

unfoldable pub link_net_offset : LinkType → ℕ
link_net_offset ethernet = 14
link_net_offset raw_ip = 0
link_net_offset linux_sll = 16

unfoldable pub link_ether_proto_offset : LinkType → Option ℕ
link_ether_proto_offset ethernet = some 12
link_ether_proto_offset linux_sll = some 14
link_ether_proto_offset raw_ip = none

-- The set of L4 protocol numbers that a port prologue admits.
pub data L4Set : Type 0 where
  one : ℕ → L4Set
  tcp_or_udp : L4Set

unfoldable pub contains : L4Set → ℕ → Bool
contains (one x) p = x == p
contains tcp_or_udp p = p == 6 || p == 17

unfoldable pub subset_of : L4Set → L4Set → Bool
subset_of (one a) o = contains o a
subset_of tcp_or_udp tcp_or_udp = true
subset_of tcp_or_udp (one x) = false

unfoldable pub l4_eq : L4Set → L4Set → Bool
l4_eq (one a) (one b) = a == b
l4_eq tcp_or_udp tcp_or_udp = true
l4_eq _ _ = false

-- The smallest set that holds both, if there is one.
unfoldable pub join : L4Set → L4Set → Option L4Set
join a b =
    if l4_eq a b
    then some a
    else if subset_of a tcp_or_udp && subset_of b tcp_or_udp
    then some tcp_or_udp
    else none

pub record Facts : Type 0 where
  pub ethertype : Option ℕ
  pub ip4_proto : Option ℕ
  pub ip6_nh : Option ℕ
  pub ports_ready : Option L4Set

-- The helper `both` of `Facts::meet` and of `GuardSet::intersect`, at numbers and at sets.
unfoldable pub both : Option ℕ → Option ℕ → Option ℕ
both (some p) (some q) = if p == q then some p else none
both _ _ = none

unfoldable pub both_sets : Option L4Set → Option L4Set → Option L4Set
both_sets (some p) (some q) = if l4_eq p q then some p else none
both_sets _ _ = none

unfoldable pub join_ready : Option L4Set → Option L4Set → Option L4Set
join_ready (some x) (some y) = join x y
join_ready _ _ = none

unfoldable pub meet_facts : Facts → Facts → Facts
meet_facts a b = record {
  ethertype = both a.ethertype b.ethertype;
  ip4_proto = both a.ip4_proto b.ip4_proto;
  ip6_nh = both a.ip6_nh b.ip6_nh;
  ports_ready = join_ready a.ports_ready b.ports_ready;
}
