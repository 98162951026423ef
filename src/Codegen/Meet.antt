-- ===== src/Codegen/Meet.antt =====
-- pktbaffle/src/codegen.rs: the order of `L4Set`, and what the join of paths does to the facts.
use pktbaffle.Prelude.{
  ℕ, Bool, true, false, ◌&&◌, ◌||◌, ◌==◌, ◌≡◌, ◌↔◌, refl, Option, some, none, arith,
}
use pktbaffle.Codegen.Facts.{
  L4Set, one, tcp_or_udp, contains, subset_of, l4_eq, join, Facts, both, join_ready, meet_facts,
}

-- `subset_of` decides the inclusion of the sets of protocol numbers.
pub subset_of_iff :
    (a b : L4Set) → (subset_of a b ≡ true) ↔ ((p : ℕ) → contains a p ≡ true → contains b p ≡ true)
unfolding subset_of contains
subset_of_iff (one x) (one y) = (λ h p k. ground arith, λ f. ground (arith, f x))
subset_of_iff (one x) tcp_or_udp = (λ h p k. ground arith, λ f. ground (arith, f x))
subset_of_iff tcp_or_udp tcp_or_udp = (λ h p k. k, λ f. refl)
subset_of_iff tcp_or_udp (one x) =
    (λ h. absurd (ground arith), λ f. absurd (ground (arith, f 6, f 17)))

-- `join` is the least set above both: a set is above the join exactly if it is above both sets, and
-- no set is above both where there is no join.
pub subset_of-join :
    (a b d : L4Set)
    → elim (join a b) [ some c ↦ subset_of c d | none ↦ false ] ≡ (subset_of a d && subset_of b d)
unfolding subset_of contains join l4_eq
subset_of-join (one x) (one y) (one z) = ground arith
subset_of-join (one x) (one y) tcp_or_udp = ground arith
subset_of-join (one x) tcp_or_udp (one z) = ground arith
subset_of-join (one x) tcp_or_udp tcp_or_udp = ground arith
subset_of-join tcp_or_udp (one y) (one z) = ground arith
subset_of-join tcp_or_udp (one y) tcp_or_udp = ground arith
subset_of-join tcp_or_udp tcp_or_udp (one z) = ground arith
subset_of-join tcp_or_udp tcp_or_udp tcp_or_udp = ground arith

-- The fields of a packet that the facts speak of.
pub record Fields : Type 0 where
  pub ethertype : ℕ
  pub ip4_proto : ℕ
  pub ip6_nh : ℕ
  pub l4 : ℕ

abbrev pinned : Option ℕ → ℕ → Bool
pinned none v = true
pinned (some w) v = w == v

abbrev admitted : Option L4Set → ℕ → Bool
admitted none v = true
admitted (some w) v = contains w v

-- The facts are true of the packet.
unfoldable pub true_of : Facts → Fields → Bool
true_of f x =
    pinned f.ethertype x.ethertype
    && pinned f.ip4_proto x.ip4_proto
    && pinned f.ip6_nh x.ip6_nh
    && admitted f.ports_ready x.l4

pinned-both :
    (a b : Option ℕ) (v : ℕ) → (pinned a v || pinned b v) ≡ true → pinned (both a b) v ≡ true
unfolding both
pinned-both none b v h = refl
pinned-both (some p) none v h = refl
pinned-both (some p) (some q) v h = ground arith

admitted-join_ready :
    (a b : Option L4Set) (v : ℕ)
    → (admitted a v || admitted b v) ≡ true
    → admitted (join_ready a b) v ≡ true
unfolding join_ready join subset_of contains l4_eq
admitted-join_ready none b v h = refl
admitted-join_ready (some p) none v h = refl
admitted-join_ready (some (one x)) (some (one y)) v h = ground arith
admitted-join_ready (some (one x)) (some tcp_or_udp) v h = ground arith
admitted-join_ready (some tcp_or_udp) (some (one y)) v h = ground arith
admitted-join_ready (some tcp_or_udp) (some tcp_or_udp) v h = ground arith

-- What is true of a packet on one of two paths is true after they join: `Facts::meet` keeps no fact
-- that either path lacks.
pub true_of-meet_facts :
    (a b : Facts) (x : Fields)
    → (true_of a x || true_of b x) ≡ true
    → true_of (meet_facts a b) x ≡ true
unfolding meet_facts true_of
true_of-meet_facts a b x h = ground (
  arith,
  pinned-both a.ethertype b.ethertype x.ethertype,
  pinned-both a.ip4_proto b.ip4_proto x.ip4_proto,
  pinned-both a.ip6_nh b.ip6_nh x.ip6_nh,
  admitted-join_ready a.ports_ready b.ports_ready x.l4,
)
