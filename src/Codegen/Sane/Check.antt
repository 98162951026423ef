-- ===== src/Codegen/Sane/Check.antt =====
-- pktbaffle/src/codegen.rs: the checks of a packet field keep the invariant.
use pktbaffle.Prelude.{ℕ, Bool, ◌==◌, ◌<◌, ◌^◌, ◌≡◌, arith, true, ltb, length}
use pktbaffle.Ast.{Proto, ip, ip6, arp, rarp, tcp, udp, icmp, icmp6, igmp, sctp, num, ip6_proto}
use pktbaffle.Codegen.Facts.{L4Set, one, tcp_or_udp}
use pktbaffle.Codegen.State.{Patch, Codegen, ether_proto_offset}
use pktbaffle.Codegen.Sane.{
  Inv, Post, kept, failed, bind-Post, if-Post, option-Post, push-Post, with_facts, resolve-Post,
  net_offset-small, ether_proto_offset-small,
}
use pktbaffle.Codegen.Sane.Build.{
  ldh_abs-IsGood, ldb_abs-IsGood, ldw_abs-IsGood, jeq_k_jf-IsGood, jeq_k_jt-IsGood,
}
use pktbaffle.Codegen.Check.{
  check_halfword, check_byte, check_word, check_ethertype, emit_ethertype, ip4_guard, emit_ip4_l4,
  emit_ip6_l4, emit_proto, emit_l4_set_check, pins,
}

pub check_halfword-Post :
    {d : ℕ} {cg : Codegen} {off e : ℕ}
    → Inv d cg
    → off < 2 ^ 32
    → e < 2 ^ 32
    → Post d (check_halfword off e cg)
unfolding check_halfword
check_halfword-Post v h k =
    bind-Post (push-Post v (ldh_abs-IsGood h))
      (λ _ _ w. bind-Post (push-Post w (jeq_k_jf-IsGood k)) (λ _ _ z. kept z))

pub check_byte-Post :
    {d : ℕ} {cg : Codegen} {off e : ℕ}
    → Inv d cg
    → off < 2 ^ 32
    → e < 2 ^ 32
    → Post d (check_byte off e cg)
unfolding check_byte
check_byte-Post v h k =
    bind-Post (push-Post v (ldb_abs-IsGood h))
      (λ _ _ w. bind-Post (push-Post w (jeq_k_jf-IsGood k)) (λ _ _ z. kept z))

pub check_word-Post :
    {d : ℕ} {cg : Codegen} {off e : ℕ}
    → Inv d cg
    → off < 2 ^ 32
    → e < 2 ^ 32
    → Post d (check_word off e cg)
unfolding check_word
check_word-Post v h k =
    bind-Post (push-Post v (ldw_abs-IsGood h))
      (λ _ _ w. bind-Post (push-Post w (jeq_k_jf-IsGood k)) (λ _ _ z. kept z))

check_ethertype-Post :
    {d : ℕ} {cg : Codegen} {off et : ℕ}
    → Inv d cg
    → off < 2 ^ 32
    → et < 2 ^ 32
    → Post d (check_ethertype off et cg)
unfolding check_ethertype
check_ethertype-Post {cg = cg} {et = et} v h k =
    if-Post {cg = cg} (pins cg.facts.ethertype et) _ _ (kept v)
      (bind-Post (check_halfword-Post v h k) (λ _ _ w. kept (with_facts w)))

pub emit_ethertype-Post :
    {d : ℕ} {cg : Codegen} {et : ℕ} → Inv d cg → et < 2 ^ 32 → Post d (emit_ethertype et cg)
unfolding emit_ethertype
emit_ethertype-Post {cg = cg} {et = et} v k =
    option-Post (ether_proto_offset cg) _ _
      (λ off e. check_ethertype-Post v (omega (arith, ether_proto_offset-small v off e)) k)
      (if-Post {cg = cg} (et == 0x0800) _ _ (kept v) failed)

pub ip4_guard-Post : {d : ℕ} {cg : Codegen} → Inv d cg → Post d (ip4_guard cg)
unfolding ip4_guard
ip4_guard-Post v = emit_ethertype-Post v (omega arith)

pub emit_ip4_l4-Post :
    {d : ℕ} {cg : Codegen} {n : ℕ} → Inv d cg → n < 2 ^ 32 → Post d (emit_ip4_l4 n cg)
unfolding emit_ip4_l4
emit_ip4_l4-Post {n = n} v k = bind-Post (ip4_guard-Post v) (λ _ cg w.
    if-Post {cg = cg} (pins cg.facts.ip4_proto n) _ _ (kept w) (
      bind-Post (check_byte-Post w (omega (arith, net_offset-small w)) k)
        (λ _ _ x. kept (with_facts x))))

pub emit_ip6_l4-Post :
    {d : ℕ} {cg : Codegen} {n : ℕ} → Inv d cg → n < 2 ^ 32 → Post d (emit_ip6_l4 n cg)
unfolding emit_ip6_l4
emit_ip6_l4-Post {n = n} v k = bind-Post (emit_ethertype-Post v (omega arith)) (λ _ cg w.
    if-Post {cg = cg} (pins cg.facts.ip6_nh n) _ _ (kept w) (
      bind-Post (check_byte-Post w (omega (arith, net_offset-small w)) k)
        (λ _ _ x. kept (with_facts x))))

-- The numbers in a protocol are bytes.
abbrev pub fits_proto : Proto → Bool
fits_proto (num n) = ltb n 256
fits_proto (ip6_proto n) = ltb n 256
fits_proto _ = true

pub emit_proto-Post :
    {d : ℕ} {cg : Codegen} (p : Proto) → Inv d cg → fits_proto p ≡ true → Post d (emit_proto p cg)
unfolding emit_proto
emit_proto-Post ip v h = emit_ethertype-Post v (omega arith)
emit_proto-Post ip6 v h = emit_ethertype-Post v (omega arith)
emit_proto-Post arp v h = emit_ethertype-Post v (omega arith)
emit_proto-Post rarp v h = emit_ethertype-Post v (omega arith)
emit_proto-Post icmp6 v h = emit_ip6_l4-Post v (omega arith)
emit_proto-Post (ip6_proto n) v h = emit_ip6_l4-Post v (ground arith)
emit_proto-Post tcp v h = emit_ip4_l4-Post v (omega arith)
emit_proto-Post udp v h = emit_ip4_l4-Post v (omega arith)
emit_proto-Post icmp v h = emit_ip4_l4-Post v (omega arith)
emit_proto-Post igmp v h = emit_ip4_l4-Post v (omega arith)
emit_proto-Post sctp v h = emit_ip4_l4-Post v (omega arith)
emit_proto-Post (num n) v h = emit_ip4_l4-Post v (ground arith)

abbrev pub SetFits : L4Set → Type 0
SetFits (one n) = n < 2 ^ 32
SetFits tcp_or_udp = Unit

pub emit_l4_set_check-Post :
    {d : ℕ} {cg : Codegen} (want : L4Set)
    → Inv d cg
    → SetFits want
    → Post d (emit_l4_set_check want cg)
unfolding emit_l4_set_check
emit_l4_set_check-Post (one n) v h = bind-Post (push-Post v (jeq_k_jf-IsGood h)) (λ _ _ w. kept w)
emit_l4_set_check-Post tcp_or_udp v h =
    bind-Post (push-Post v (jeq_k_jt-IsGood (omega arith))) (λ i _ w.
      bind-Post (push-Post w (jeq_k_jf-IsGood (omega arith)))
        (λ _ cg x. bind-Post (resolve-Post (Patch.jt i) (length cg.insns) x) (λ _ _ z. kept z)))
