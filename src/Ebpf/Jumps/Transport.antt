-- ===== src/Ebpf/Jumps/Transport.antt =====
-- pktbaffle/src/ebpf_codegen.rs: the checks of protocols and ports keep the invariant.
use pktbaffle.Prelude.{ℕ, ◌+◌, refl, arith, length, Option, none, some}
use pktbaffle.Ast.{
  Proto, Dir, src, dst, src_and_dst, src_or_dst, tcp, udp, sctp, ip, ip6, arp, rarp, icmp, igmp,
  icmp6, num, ip6_proto,
}
use pktbaffle.Codegen.Facts.{link_net_offset, link_ether_proto_offset}
use pktbaffle.Ebpf.Build.{
  mov64_reg, add64_imm, add64_reg, and32_imm, lsh32_imm, jgt_reg, jne_imm, jeq_imm, jlt_imm,
  jgt_imm, ja,
}
use pktbaffle.Ebpf.State.{slot, here}
use pktbaffle.Ebpf.Transport.{
  dual_l4, emit_dual_l4, emit_proto, tcp_or_udp, emit_l4_proto_check, header_by_ihl,
  transport_check, emit_port_prereqs_ipv4_only, dual_prereqs, emit_port_prereqs, check_port,
  check_port_either, check_port_dir, emit_port, check_range, emit_portrange,
}
use pktbaffle.Ebpf.Jumps.{
  AllBelow, no_patch, before, AllBelow-mono, PatchIn, BothBelow, kept, failed, Keeps, bind-Post,
  option-Post, push-Post, resolve-Post,
}
use pktbaffle.Ebpf.Jumps.Combine.{fails-BothBelow, append_later, extended-Post, by_dir-Post}
use pktbaffle.Ebpf.Jumps.Load.{
  push_ldx_h_be-Post, emit_load_byte-Post, emit_load_half-Post, check_byte-Post,
  emit_ethertype-Post, ip4_guard-Post, emit_ip4_l4-Post, emit_ip6_l4-Post,
}

dual_l4-Post : (e n k : ℕ) → Keeps BothBelow (dual_l4 e n k)
unfolding dual_l4 here jeq_imm jne_imm ja
dual_l4-Post e n k cg v = bind-Post (emit_load_half-Post e cg v) (λ _ _ v1 l1 a.
    bind-Post (push-Post _ _ v1 refl) (λ j4 _ v2 l2 b.
      bind-Post (push-Post _ _ v2 refl) (λ _ _ v3 l3 c.
        bind-Post (check_byte-Post (n + 6) k _ v3) (λ _ _ v4 l4 q6.
          bind-Post (push-Post _ _ v4 refl) (λ skip cg5 v5 l5 d.
            bind-Post (resolve-Post cg5 (slot j4) (length cg5.insns) v5 (omega arith) (omega arith))
              (λ _ _ v6 l6 _. bind-Post (check_byte-Post (n + 9) k _ v6) (λ _ cg7 v7 l7 q4.
                bind-Post
                  (resolve-Post cg7 (slot skip) (length cg7.insns) v7 (omega arith) (omega arith))
                  (λ _ _ v8 l8 _. kept v8 (omega arith) (
                    fails-BothBelow (
                      before (omega arith) (
                        before (omega arith) (
                          append_later q6.failures (omega arith)
                            (AllBelow-mono l8 q4.failures)))))))))))))

emit_dual_l4-Post : (k : ℕ) → Keeps BothBelow (emit_dual_l4 k)
unfolding emit_dual_l4
emit_dual_l4-Post k cg v =
    option-Post {cg = cg} (link_ether_proto_offset cg.link) _ _
      (λ e. dual_l4-Post e (link_net_offset cg.link) k cg v) (emit_ip4_l4-Post k cg v)

pub emit_proto-Post : (p : Proto) → Keeps BothBelow (emit_proto p)
unfolding emit_proto
emit_proto-Post ip = emit_ethertype-Post 0x0800
emit_proto-Post ip6 = emit_ethertype-Post 0x86dd
emit_proto-Post arp = emit_ethertype-Post 0x0806
emit_proto-Post rarp = emit_ethertype-Post 0x8035
emit_proto-Post tcp = emit_dual_l4-Post 6
emit_proto-Post udp = emit_dual_l4-Post 17
emit_proto-Post sctp = emit_dual_l4-Post 132
emit_proto-Post icmp = emit_ip4_l4-Post 1
emit_proto-Post igmp = emit_ip4_l4-Post 2
emit_proto-Post icmp6 = emit_ip6_l4-Post 58
emit_proto-Post (num n) = emit_ip4_l4-Post n
emit_proto-Post (ip6_proto n) = emit_ip6_l4-Post n

tcp_or_udp-Post : (off : ℕ) → Keeps BothBelow (tcp_or_udp off)
unfolding tcp_or_udp here jeq_imm jne_imm
tcp_or_udp-Post off cg v = bind-Post (emit_load_byte-Post off cg v) (λ _ _ v1 l1 a.
    bind-Post (push-Post _ _ v1 refl) (λ eq _ v2 l2 b.
      bind-Post (push-Post _ _ v2 refl) (λ _ cg3 v3 l3 c.
        bind-Post (resolve-Post cg3 (slot eq) (length cg3.insns) v3 (omega arith) (omega arith))
          (λ _ _ v4 l4 _.
            kept v4 (omega arith)
              (fails-BothBelow (before (omega arith) (before (omega arith) no_patch)))))))

emit_l4_proto_check-Post :
    (off : ℕ) (pr : Option Proto) → Keeps BothBelow (emit_l4_proto_check off pr)
unfolding emit_l4_proto_check
emit_l4_proto_check-Post off (some tcp) = check_byte-Post off 6
emit_l4_proto_check-Post off (some udp) = check_byte-Post off 17
emit_l4_proto_check-Post off (some sctp) = check_byte-Post off 132
emit_l4_proto_check-Post off none = tcp_or_udp-Post off
emit_l4_proto_check-Post off (some ip) = λ cg v. failed refl
emit_l4_proto_check-Post off (some ip6) = λ cg v. failed refl
emit_l4_proto_check-Post off (some arp) = λ cg v. failed refl
emit_l4_proto_check-Post off (some rarp) = λ cg v. failed refl
emit_l4_proto_check-Post off (some icmp) = λ cg v. failed refl
emit_l4_proto_check-Post off (some igmp) = λ cg v. failed refl
emit_l4_proto_check-Post off (some icmp6) = λ cg v. failed refl
emit_l4_proto_check-Post off (some (num n)) = λ cg v. failed refl
emit_l4_proto_check-Post off (some (ip6_proto n)) = λ cg v. failed refl

pub header_by_ihl-Post : (off : ℕ) → Keeps PatchIn (header_by_ihl off)
unfolding header_by_ihl and32_imm lsh32_imm mov64_reg add64_imm add64_reg
header_by_ihl-Post off cg v = bind-Post (emit_load_byte-Post off cg v) (λ _ _ v1 l1 a.
    bind-Post (push-Post _ _ v1 refl) (λ _ _ v2 l2 _.
      bind-Post (push-Post _ _ v2 refl) (λ _ _ v3 l3 _.
        bind-Post (push-Post _ _ v3 refl) (λ _ _ v4 l4 _.
          bind-Post (push-Post _ _ v4 refl) (λ _ _ v5 l5 _.
            bind-Post (push-Post _ _ v5 refl)
              (λ _ _ v6 l6 _. kept v6 (omega arith) (omega arith)))))))

pub transport_check-Post : (size : ℕ) → Keeps PatchIn (transport_check size)
unfolding transport_check mov64_reg add64_imm jgt_reg
transport_check-Post size cg v = bind-Post (push-Post _ _ v refl) (λ _ _ v1 l1 _.
    bind-Post (push-Post _ _ v1 refl) (λ _ _ v2 l2 _.
      bind-Post (push-Post _ _ v2 refl) (λ _ _ v3 l3 c. kept v3 (omega arith) (omega arith))))

emit_port_prereqs_ipv4_only-Post :
    (pr : Option Proto) → Keeps BothBelow (emit_port_prereqs_ipv4_only pr)
unfolding emit_port_prereqs_ipv4_only
emit_port_prereqs_ipv4_only-Post pr cg v = bind-Post (ip4_guard-Post cg v) (λ _ _ v1 l1 p.
    bind-Post (emit_l4_proto_check-Post _ pr _ v1) (λ _ _ v2 l2 q.
      bind-Post (header_by_ihl-Post _ _ v2) (λ _ _ v3 l3 a.
        bind-Post (transport_check-Post 4 _ v3) (λ _ _ v4 l4 b. kept v4 (omega arith) (
          fails-BothBelow (
            append_later (append_later p.failures l2 q.failures) (omega arith)
              (before (omega arith) (before (omega arith) no_patch))))))))

dual_prereqs-Post : (e n : ℕ) (pr : Option Proto) → Keeps BothBelow (dual_prereqs e n pr)
unfolding dual_prereqs here jeq_imm jne_imm ja mov64_reg add64_imm
dual_prereqs-Post e n pr cg v = bind-Post (emit_load_half-Post e cg v) (λ _ _ v1 l1 a.
    bind-Post (push-Post _ _ v1 refl) (λ j4 _ v2 l2 b.
      bind-Post (push-Post _ _ v2 refl) (λ _ _ v3 l3 c.
        bind-Post (emit_l4_proto_check-Post (n + 6) pr _ v3) (λ _ _ v4 l4 q6.
          bind-Post (push-Post _ _ v4 refl) (λ _ _ v5 l5 _.
            bind-Post (push-Post _ _ v5 refl) (λ _ _ v6 l6 _.
              bind-Post (transport_check-Post 4 _ v6) (λ _ _ v7 l7 d.
                bind-Post (push-Post _ _ v7 refl) (λ skip cg8 v8 l8 f.
                  bind-Post
                    (resolve-Post cg8 (slot j4) (length cg8.insns) v8 (omega arith) (omega arith))
                    (λ _ _ v9 l9 _.
                      bind-Post (emit_l4_proto_check-Post (n + 9) pr _ v9) (λ _ _ w1 m1 q4.
                        bind-Post (header_by_ihl-Post n _ w1) (λ _ _ w2 m2 g.
                          bind-Post (transport_check-Post 4 _ w2) (λ _ cg3 w3 m3 h.
                            bind-Post
                              (resolve-Post cg3 (slot skip) (length cg3.insns) w3 (omega arith)
                                (omega arith))
                              (λ _ _ w4 m4 _. kept w4 (omega arith) (
                                fails-BothBelow (
                                  before (omega arith) (
                                    before (omega arith) (
                                      append_later
                                        (append_later q6.failures (omega arith)
                                          (before (omega arith) q4.failures))
                                        (omega arith)
                                        (before (omega arith)
                                          (before (omega arith) no_patch)))))))))))))))))))

emit_port_prereqs-Post : (pr : Option Proto) → Keeps BothBelow (emit_port_prereqs pr)
unfolding emit_port_prereqs
emit_port_prereqs-Post pr cg v =
    option-Post {cg = cg} (link_ether_proto_offset cg.link) _ _
      (λ e. dual_prereqs-Post e (link_net_offset cg.link) pr cg v)
      (emit_port_prereqs_ipv4_only-Post pr cg v)

check_port-Post : (k off : ℕ) → Keeps AllBelow (check_port k off)
unfolding check_port jne_imm
check_port-Post k off cg v = bind-Post (push_ldx_h_be-Post _ _ off cg v) (λ _ _ v1 l1 _.
    bind-Post (push-Post _ _ v1 refl)
      (λ _ _ v2 l2 a. kept v2 (omega arith) (before (omega arith) no_patch)))

check_port_either-Post : (k : ℕ) → Keeps BothBelow (check_port_either k)
unfolding check_port_either jeq_imm
check_port_either-Post k cg v = bind-Post (push_ldx_h_be-Post _ _ 0 cg v) (λ _ _ v1 l1 _.
    bind-Post (push-Post _ _ v1 refl) (λ _ _ v2 l2 a.
      bind-Post (check_port-Post k 2 _ v2) (λ _ _ v3 l3 q.
        kept v3 (omega arith)
          (record { successes = before (omega arith) no_patch; failures = q }))))

check_port_dir-Post : (dir : Dir) (k : ℕ) → Keeps BothBelow (check_port_dir dir k)
unfolding check_port_dir
check_port_dir-Post src_or_dst k = check_port_either-Post k
check_port_dir-Post src k = by_dir-Post src (check_port-Post k 0) (check_port-Post k 2)
check_port_dir-Post dst k = by_dir-Post dst (check_port-Post k 0) (check_port-Post k 2)
check_port_dir-Post src_and_dst k =
    by_dir-Post src_and_dst (check_port-Post k 0) (check_port-Post k 2)

pub emit_port-Post :
    (port : ℕ) (dir : Dir) (pr : Option Proto) → Keeps BothBelow (emit_port port dir pr)
unfolding emit_port
emit_port-Post port dir pr =
    extended-Post (emit_port_prereqs-Post pr) (check_port_dir-Post dir port)

check_range-Post : (lo hi off : ℕ) → Keeps AllBelow (check_range lo hi off)
unfolding check_range jlt_imm jgt_imm
check_range-Post lo hi off cg v = bind-Post (push_ldx_h_be-Post _ _ off cg v) (λ _ _ v1 l1 _.
    bind-Post (push-Post _ _ v1 refl) (λ _ _ v2 l2 a.
      bind-Post (push-Post _ _ v2 refl) (λ _ _ v3 l3 b.
        kept v3 (omega arith) (before (omega arith) (before (omega arith) no_patch)))))

pub emit_portrange-Post :
    (lo hi : ℕ) (dir : Dir) (pr : Option Proto) → Keeps BothBelow (emit_portrange lo hi dir pr)
unfolding emit_portrange
emit_portrange-Post lo hi dir pr =
    extended-Post (emit_port_prereqs-Post pr)
      (by_dir-Post dir (check_range-Post lo hi 0) (check_range-Post lo hi 2))
