-- ===== src/Ebpf/Jumps/Addr.antt =====
-- pktbaffle/src/ebpf_codegen.rs: the checks of addresses and networks keep the invariant.
use pktbaffle.Prelude.{ℕ, ◌+◌, ◌-◌, refl, arith, leb, List, [], ◌∷◌, if◌then◌else◌}
use pktbaffle.Ast.{Dir, src, dst, src_or_dst, src_and_dst, IpAddr, v4, v6, IpNet, Ipv6Net}
use pktbaffle.Ebpf.Build.{jne_imm, jeq_imm, and32_imm}
use pktbaffle.Ebpf.Load.{
  emit_load_half, then_expect, check_addr4, emit_host4, check_ip6, emit_host6, emit_host, check_net,
  check_net_either, check_net_dir, emit_net, check_part, check_net6, emit_net6,
}
use pktbaffle.Ebpf.Jumps.{
  AllBelow, no_patch, before, BothBelow, kept, Keeps, bind-Post, if-Post, push-Post,
}
use pktbaffle.Ebpf.Jumps.Combine.{
  fails-Post, append-Post, append_fails-Post, extended-Post, by_dir-Post,
}
use pktbaffle.Ebpf.Jumps.Load.{
  emit_load_half-Post, emit_load_word-Post, then_expect-Post, emit_ethertype-Post, ip4_guard-Post,
}

check_addr4-Post : (k s d : ℕ) (dir : Dir) → Keeps BothBelow (check_addr4 k s d dir)
unfolding check_addr4 jeq_imm
check_addr4-Post k s d src cg v = fails-Post (then_expect-Post _ k (emit_load_word-Post s)) cg v
check_addr4-Post k s d dst cg v = fails-Post (then_expect-Post _ k (emit_load_word-Post d)) cg v
check_addr4-Post k s d src_and_dst cg v =
    append_fails-Post (then_expect-Post _ k (emit_load_word-Post s))
      (then_expect-Post _ k (emit_load_word-Post d)) cg v
check_addr4-Post k s d src_or_dst cg v = bind-Post (emit_load_word-Post s cg v) (λ _ _ v1 l1 a.
    bind-Post (push-Post _ _ v1 refl) (λ _ _ v2 l2 b.
      bind-Post (then_expect-Post _ k (emit_load_word-Post d) _ v2) (λ _ _ v3 l3 c.
        kept v3 (omega arith) (record {
          successes = before (omega arith) no_patch;
          failures = before (omega arith) c;
        }))))

emit_host4-Post : (a : ℕ) (dir : Dir) → Keeps BothBelow (emit_host4 a dir)
unfolding emit_host4
emit_host4-Post a dir = extended-Post ip4_guard-Post (λ cg. check_addr4-Post a _ _ dir cg)

check_ip6-Post : (segs : List ℕ) (off : ℕ) → Keeps AllBelow (check_ip6 segs off)
unfolding check_ip6
check_ip6-Post [] off cg v = kept v (omega arith) no_patch
check_ip6-Post (seg ∷ segs) off cg v =
    append-Post (then_expect-Post _ seg (emit_load_half-Post off)) (check_ip6-Post segs (off + 2))
      cg v

emit_host6-Post : (segs : List ℕ) (dir : Dir) → Keeps BothBelow (emit_host6 segs dir)
unfolding emit_host6
emit_host6-Post segs dir =
    extended-Post (emit_ethertype-Post 0x86dd)
      (λ cg. by_dir-Post dir (check_ip6-Post segs _) (check_ip6-Post segs _) cg)

pub emit_host-Post : (a : IpAddr) (dir : Dir) → Keeps BothBelow (emit_host a dir)
unfolding emit_host
emit_host-Post (v4 a) dir = emit_host4-Post a dir
emit_host-Post (v6 a) dir = emit_host6-Post a dir

check_net-Post : (mask masked off : ℕ) → Keeps AllBelow (check_net mask masked off)
unfolding check_net and32_imm jne_imm
check_net-Post mask masked off cg v = bind-Post (emit_load_word-Post off cg v) (λ _ _ v1 l1 a.
    bind-Post (push-Post _ _ v1 refl) (λ _ _ v2 l2 _.
      bind-Post (push-Post _ _ v2 refl) (λ _ _ v3 l3 c.
        kept v3 (omega arith) (before (omega arith) (before (omega arith) no_patch)))))

check_net_either-Post : (mask masked s d : ℕ) → Keeps BothBelow (check_net_either mask masked s d)
unfolding check_net_either and32_imm jeq_imm
check_net_either-Post mask masked s d cg v = bind-Post (emit_load_word-Post s cg v) (λ _ _ v1 l1 a.
    bind-Post (push-Post _ _ v1 refl) (λ _ _ v2 l2 _.
      bind-Post (push-Post _ _ v2 refl) (λ _ _ v3 l3 b.
        bind-Post (check_net-Post mask masked d _ v3) (λ _ _ v4 l4 c.
          kept v4 (omega arith) (record {
            successes = before (omega arith) no_patch;
            failures = before (omega arith) c;
          })))))

check_net_dir-Post :
    (dir : Dir) (mask masked s d : ℕ) → Keeps BothBelow (check_net_dir dir mask masked s d)
unfolding check_net_dir
check_net_dir-Post src_or_dst mask masked s d = check_net_either-Post mask masked s d
check_net_dir-Post src mask masked s d =
    by_dir-Post src (check_net-Post mask masked s) (check_net-Post mask masked d)
check_net_dir-Post dst mask masked s d =
    by_dir-Post dst (check_net-Post mask masked s) (check_net-Post mask masked d)
check_net_dir-Post src_and_dst mask masked s d =
    by_dir-Post src_and_dst (check_net-Post mask masked s) (check_net-Post mask masked d)

pub emit_net-Post : (net : IpNet) (dir : Dir) → Keeps BothBelow (emit_net net dir)
unfolding emit_net
emit_net-Post net dir = extended-Post ip4_guard-Post (λ cg. check_net_dir-Post dir _ _ _ _ cg)

check_part-Post : (bits seg off : ℕ) → Keeps AllBelow (check_part bits seg off)
unfolding check_part and32_imm jne_imm
check_part-Post bits seg off cg v = bind-Post (emit_load_half-Post off cg v) (λ _ _ v1 l1 a.
    bind-Post (push-Post _ _ v1 refl) (λ _ _ v2 l2 _.
      bind-Post (push-Post _ _ v2 refl) (λ _ _ v3 l3 c.
        kept v3 (omega arith) (before (omega arith) (before (omega arith) no_patch)))))

check_net6-Post :
    (segs : List ℕ) (start len off : ℕ) → Keeps AllBelow (check_net6 segs start len off)
unfolding check_net6
check_net6-Post [] start len off cg v = kept v (omega arith) no_patch
check_net6-Post (seg ∷ segs) start len off cg v =
    if-Post {cg = cg} (leb len start) _ _ (kept v (omega arith) no_patch) (
      append-Post
        {m = if leb (start + 16) len
          then then_expect (emit_load_half off) seg
          else check_part (len - start) seg off}
        (λ cg v.
          if-Post {cg = cg} (leb (start + 16) len) _ _
            (then_expect-Post _ seg (emit_load_half-Post off) cg v)
            (check_part-Post (len - start) seg off cg v))
        (check_net6-Post segs (start + 16) len (off + 2)) cg v)

pub emit_net6-Post : (net : Ipv6Net) (dir : Dir) → Keeps BothBelow (emit_net6 net dir)
unfolding emit_net6
emit_net6-Post net dir = extended-Post (emit_ethertype-Post 0x86dd) (λ cg.
    by_dir-Post dir (check_net6-Post net.addr 0 net.prefix_len _)
      (check_net6-Post net.addr 0 net.prefix_len _) cg)
