-- ===== src/Codegen/Sane/Addr.antt =====
-- pktbaffle/src/codegen.rs: the checks of IP addresses keep the invariant.
use pktbaffle.Prelude.{
  ℕ, Bool, true, ◌&&◌, ◌<◌, ◌^◌, ◌%◌, ◌≡◌, ◌+◌, ◌-◌, ◌*◌, arith, List, [], ◌∷◌, ltb, leb, length,
  bit_and,
}
use pktbaffle.Prelude.Bits.{bit_and_le}
use pktbaffle.Ast.{Dir, src_or_dst, src, dst, src_and_dst, IpAddr, v4, v6, IpNet, Ipv6Net}
use pktbaffle.Codegen.State.{Patch, Codegen, M, net_offset}
use pktbaffle.Codegen.Sane.{
  Inv, Post, Keeps, kept, bind-Post, if-Post, push-Post, resolve_all-Post, net_offset-small,
}
use pktbaffle.Codegen.Sane.Build.{
  ldw_abs-IsGood, ldh_abs-IsGood, jeq_k_jf-IsGood, jeq_k_jt-IsGood, and_k-IsGood, ja-IsGood,
}
use pktbaffle.Codegen.Sane.Check.{
  check_word-Post, check_byte-Post, ip4_guard-Post, emit_ethertype-Post,
}
use pktbaffle.Codegen.Addr.{
  either_side, both_sides, by_dir, check_addr4, emit_host4, check_ip6_addr, emit_host6, emit_host,
  check_net, check_net_either, check_net_dir, emit_net, whole_segment, segment_mask, part_segment,
  check_net6, emit_net6, emit_ip_broadcast, emit_ip_multicast, emit_ip6_multicast,
}

pub either_side-Post :
    {d : ℕ} {a b : M (List Patch)} → Keeps d a → Keeps d b → Keeps d (either_side a b)
unfolding either_side
either_side-Post f g cg v = bind-Post (f cg v) (λ ps _ w.
    bind-Post (push-Post w ja-IsGood) (λ _ cg' x.
      bind-Post (resolve_all-Post ps (length cg'.insns) x)
        (λ _ cg'' y. bind-Post (g cg'' y) (λ _ _ z. kept z))))

pub both_sides-Post :
    {d : ℕ} {a b : M (List Patch)} → Keeps d a → Keeps d b → Keeps d (both_sides a b)
unfolding both_sides
both_sides-Post f g cg v = bind-Post (f cg v) (λ _ cg' w. bind-Post (g cg' w) (λ _ _ z. kept z))

pub by_dir-Post :
    {d : ℕ} {a b : M (List Patch)} (dir : Dir) → Keeps d a → Keeps d b → Keeps d (by_dir dir a b)
unfolding by_dir
by_dir-Post src f g cg v = bind-Post (f cg v) (λ _ _ z. kept z)
by_dir-Post dst f g cg v = bind-Post (g cg v) (λ _ _ z. kept z)
by_dir-Post src_and_dst f g cg v = both_sides-Post f g cg v
by_dir-Post src_or_dst f g cg v = either_side-Post f g cg v

check_addr4-Post :
    {d k s t : ℕ} (dir : Dir) (cg : Codegen)
    → Inv d cg
    → s < 2 ^ 32
    → t < 2 ^ 32
    → k < 2 ^ 32
    → Post d (check_addr4 k s t dir cg)
unfolding check_addr4
check_addr4-Post src cg v h k l =
    bind-Post (push-Post v (ldw_abs-IsGood h))
      (λ _ _ w0. bind-Post (push-Post w0 (jeq_k_jf-IsGood l)) (λ _ _ w1. kept w1))
check_addr4-Post dst cg v h k l =
    bind-Post (push-Post v (ldw_abs-IsGood k))
      (λ _ _ w0. bind-Post (push-Post w0 (jeq_k_jf-IsGood l)) (λ _ _ w1. kept w1))
check_addr4-Post src_and_dst cg v h k l = bind-Post (push-Post v (ldw_abs-IsGood h)) (λ _ _ w0.
    bind-Post (push-Post w0 (jeq_k_jf-IsGood l)) (λ _ _ w1.
      bind-Post (push-Post w1 (ldw_abs-IsGood k))
        (λ _ _ w2. bind-Post (push-Post w2 (jeq_k_jf-IsGood l)) (λ _ _ w3. kept w3))))
check_addr4-Post src_or_dst cg v h k l = bind-Post (push-Post v (ldw_abs-IsGood h)) (λ _ _ w0.
    bind-Post (push-Post w0 (jeq_k_jt-IsGood l)) (λ _ _ w1.
      bind-Post (push-Post w1 (ldw_abs-IsGood k))
        (λ _ _ w2. bind-Post (push-Post w2 (jeq_k_jf-IsGood l)) (λ _ _ w3. kept w3))))

emit_host4-Post : {d : ℕ} (a : ℕ) (dir : Dir) → a < 2 ^ 32 → Keeps d (emit_host4 a dir)
unfolding emit_host4
emit_host4-Post a dir l cg v = bind-Post (ip4_guard-Post v) (λ _ cg' w.
    let s = net_offset-small w in
    bind-Post (check_addr4-Post dir cg' w (omega (arith, s)) (omega (arith, s)) l)
      (λ _ _ z. kept z))

-- Every segment has 16 bits.
abbrev pub fits_segments : List ℕ → Bool
fits_segments [] = true
fits_segments (s ∷ ss) = ltb s (2 ^ 16) && fits_segments ss

-- An IPv6 address has eight segments.
abbrev pub fits_ip6 : List ℕ → Bool
fits_ip6 segs = leb (length segs) 8 && fits_segments segs

check_ip6_addr-Post :
    {d : ℕ} (segs : List ℕ) (off : ℕ)
    → fits_segments segs ≡ true
    → off + 2 * length segs < 2 ^ 32
    → Keeps d (check_ip6_addr segs off)
unfolding check_ip6_addr
check_ip6_addr-Post [] off h k cg v = kept v
check_ip6_addr-Post (s ∷ ss) off h k cg v =
    bind-Post (push-Post v (ldh_abs-IsGood (omega arith))) (λ _ _ w.
      bind-Post (push-Post w (jeq_k_jf-IsGood (ground arith))) (λ _ cg' x.
        bind-Post (check_ip6_addr-Post ss (off + 2) (ground arith) (omega arith) cg' x)
          (λ _ _ z. kept z)))

emit_host6-Post : {d : ℕ} (a : List ℕ) (dir : Dir) → fits_ip6 a ≡ true → Keeps d (emit_host6 a dir)
unfolding emit_host6
emit_host6-Post a dir h cg v = bind-Post (emit_ethertype-Post v (omega arith)) (λ _ cg' w.
    let s = net_offset-small w in
    bind-Post
      (by_dir-Post dir
        (check_ip6_addr-Post a (net_offset cg' + 8) (ground arith) (ground (arith, s)))
        (check_ip6_addr-Post a (net_offset cg' + 24) (ground arith) (ground (arith, s))) cg' w)
      (λ _ _ z. kept z))

abbrev pub fits_addr : IpAddr → Bool
fits_addr (v4 a) = ltb a (2 ^ 32)
fits_addr (v6 a) = fits_ip6 a

pub emit_host-Post :
    {d : ℕ} (a : IpAddr) (dir : Dir) → fits_addr a ≡ true → Keeps d (emit_host a dir)
unfolding emit_host
emit_host-Post (v4 a) dir h = emit_host4-Post a dir (ground arith)
emit_host-Post (v6 a) dir h = emit_host6-Post a dir h

check_net-Post :
    {d : ℕ} (mask masked off : ℕ)
    → mask < 2 ^ 32
    → masked < 2 ^ 32
    → off < 2 ^ 32
    → Keeps d (check_net mask masked off)
unfolding check_net
check_net-Post mask masked off h k l cg v = bind-Post (push-Post v (ldw_abs-IsGood l)) (λ _ _ w0.
    bind-Post (push-Post w0 (and_k-IsGood h))
      (λ _ _ w1. bind-Post (push-Post w1 (jeq_k_jf-IsGood k)) (λ _ _ w2. kept w2)))

check_net_either-Post :
    {d : ℕ} (mask masked s t : ℕ)
    → mask < 2 ^ 32
    → masked < 2 ^ 32
    → s < 2 ^ 32
    → t < 2 ^ 32
    → Keeps d (check_net_either mask masked s t)
unfolding check_net_either
check_net_either-Post mask masked s t h k l m cg v =
    bind-Post (push-Post v (ldw_abs-IsGood l)) (λ _ _ w0.
      bind-Post (push-Post w0 (and_k-IsGood h)) (λ _ _ w1.
        bind-Post (push-Post w1 (jeq_k_jt-IsGood k)) (λ _ _ w2.
          bind-Post (push-Post w2 (ldw_abs-IsGood m)) (λ _ _ w3.
            bind-Post (push-Post w3 (and_k-IsGood h))
              (λ _ _ w4. bind-Post (push-Post w4 (jeq_k_jf-IsGood k)) (λ _ _ w5. kept w5))))))

check_net_dir-Post :
    {d : ℕ} (dir : Dir) (mask masked s t : ℕ)
    → mask < 2 ^ 32
    → masked < 2 ^ 32
    → s < 2 ^ 32
    → t < 2 ^ 32
    → Keeps d (check_net_dir dir mask masked s t)
check_net_dir-Post src mask masked s t h k l m cg v =
    bind-Post (check_net-Post mask masked s h k l cg v) (λ _ _ z. kept z)
check_net_dir-Post dst mask masked s t h k l m cg v =
    bind-Post (check_net-Post mask masked t h k m cg v) (λ _ _ z. kept z)
check_net_dir-Post src_and_dst mask masked s t h k l m cg v =
    both_sides-Post (check_net-Post mask masked s h k l) (check_net-Post mask masked t h k m) cg v
check_net_dir-Post src_or_dst mask masked s t h k l m cg v =
    check_net_either-Post mask masked s t h k l m cg v

abbrev pub fits_net : IpNet → Bool
fits_net n = ltb n.addr (2 ^ 32) && ltb n.mask (2 ^ 32)

pub emit_net-Post : {d : ℕ} (n : IpNet) (dir : Dir) → fits_net n ≡ true → Keeps d (emit_net n dir)
unfolding emit_net
emit_net-Post n dir h cg v = bind-Post (ip4_guard-Post v) (λ _ cg' w.
    let s = net_offset-small w in
    bind-Post
      (check_net_dir-Post dir n.mask (bit_and n.addr n.mask) (net_offset cg' + 12)
        (net_offset cg' + 16) (ground arith) (ground (arith, bit_and_le n.addr n.mask))
        (omega (arith, s)) (omega (arith, s)) cg' w)
      (λ _ _ z. kept z))

whole_segment-Post :
    {d : ℕ} (seg off : ℕ) → seg < 2 ^ 16 → off < 2 ^ 32 → Keeps d (whole_segment seg off)
unfolding whole_segment
whole_segment-Post seg off h k cg v =
    bind-Post (push-Post v (ldh_abs-IsGood k))
      (λ _ _ w0. bind-Post (push-Post w0 (jeq_k_jf-IsGood (omega arith))) (λ _ _ w1. kept w1))

part_segment-Post :
    {d : ℕ} (seg bits off : ℕ) → seg < 2 ^ 16 → off < 2 ^ 32 → Keeps d (part_segment seg bits off)
unfolding part_segment segment_mask
part_segment-Post seg bits off h k cg v = bind-Post (push-Post v (ldh_abs-IsGood k)) (λ _ _ w0.
    bind-Post
      (push-Post w0
        (and_k-IsGood (omega (arith, bit_and_le (0xffff * 2 ^ (16 - bits) % 2 ^ 32) 0xffff))))
      (λ _ _ w1.
        bind-Post
          (push-Post w1 (jeq_k_jf-IsGood (omega (arith, bit_and_le seg (segment_mask bits)))))
          (λ _ _ w2. kept w2)))

check_net6-Post :
    {d : ℕ} (segs : List ℕ) (prefix_len start off : ℕ)
    → fits_segments segs ≡ true
    → off + 2 * length segs < 2 ^ 32
    → Keeps d (check_net6 segs prefix_len start off)
unfolding check_net6
check_net6-Post [] prefix_len start off h k cg v = kept v
check_net6-Post (s ∷ ss) prefix_len start off h k cg v =
    if-Post {cg = cg} (leb prefix_len start) _ _ (kept v) (
      bind-Post
        (if-Post {cg = cg} (leb (start + 16) prefix_len) _ _
          (whole_segment-Post s off (ground arith) (omega arith) cg v)
          (part_segment-Post s (prefix_len - start) off (ground arith) (omega arith) cg v))
        (λ _ cg' w.
          bind-Post
            (check_net6-Post ss prefix_len (start + 16) (off + 2) (ground arith) (omega arith) cg'
              w)
            (λ _ _ z. kept z)))

pub emit_net6-Post :
    {d : ℕ} (n : Ipv6Net) (dir : Dir) → fits_ip6 n.addr ≡ true → Keeps d (emit_net6 n dir)
unfolding emit_net6
emit_net6-Post n dir h cg v = bind-Post (emit_ethertype-Post v (omega arith)) (λ _ cg' w.
    let s = net_offset-small w in
    bind-Post
      (by_dir-Post dir
        (check_net6-Post n.addr n.prefix_len 0 (net_offset cg' + 8) (ground arith)
          (ground (arith, s)))
        (check_net6-Post n.addr n.prefix_len 0 (net_offset cg' + 24) (ground arith)
          (ground (arith, s)))
        cg' w)
      (λ _ _ z. kept z))

pub emit_ip_broadcast-Post : {d : ℕ} → Keeps d emit_ip_broadcast
unfolding emit_ip_broadcast
emit_ip_broadcast-Post cg v = bind-Post (ip4_guard-Post v) (λ _ _ w.
    bind-Post (check_word-Post w (omega (arith, net_offset-small w)) (omega arith))
      (λ _ _ z. kept z))

pub emit_ip_multicast-Post : {d : ℕ} → Keeps d emit_ip_multicast
unfolding emit_ip_multicast
emit_ip_multicast-Post cg v = bind-Post (ip4_guard-Post v) (λ _ _ w.
    bind-Post (push-Post w (ldw_abs-IsGood (omega (arith, net_offset-small w)))) (λ _ _ w0.
      bind-Post (push-Post w0 (and_k-IsGood (omega arith)))
        (λ _ _ w1. bind-Post (push-Post w1 (jeq_k_jf-IsGood (omega arith))) (λ _ _ w2. kept w2))))

pub emit_ip6_multicast-Post : {d : ℕ} → Keeps d emit_ip6_multicast
unfolding emit_ip6_multicast
emit_ip6_multicast-Post cg v = bind-Post (emit_ethertype-Post v (omega arith)) (λ _ _ w.
    bind-Post (check_byte-Post w (omega (arith, net_offset-small w)) (omega arith))
      (λ _ _ z. kept z))
