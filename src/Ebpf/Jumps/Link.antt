-- ===== src/Ebpf/Jumps/Link.antt =====
-- pktbaffle/src/ebpf_codegen.rs: the checks of the link layer, broadcast and multicast keep the invariant.
use pktbaffle.Prelude.{ℕ, ◌+◌, refl, arith, length, Option, none, some}
use pktbaffle.Ast.{MacAddr, Dir, src, dst, src_or_dst, src_and_dst}
use pktbaffle.Codegen.Facts.{link_ether_proto_offset}
use pktbaffle.Ebpf.Build.{and32_imm, rsh32_imm, jne_imm, jeq_imm, jset_imm, ja}
use pktbaffle.Ebpf.State.{slot, here}
use pktbaffle.Ebpf.Primitive.{
  check_mac, check_mac_dir, on_raw_ip, emit_ether_host, multicast_bit, emit_ether_multicast,
  emit_ip_broadcast, check_multicast, emit_ip_multicast, emit_ip6_multicast, check_vlan_id,
  emit_vlan, check_mpls, check_label, mpls_at, emit_mpls, emit_pppoe_session,
}
use pktbaffle.Ebpf.Jumps.{
  AllBelow, no_patch, before, BothBelow, kept, failed, Keeps, bind-Post, if-Post, option-Post,
  push-Post, resolve-Post,
}
use pktbaffle.Ebpf.Jumps.Combine.{
  fails-BothBelow, append-Post, extended-Post, extended-BothBelow, by_dir-Post,
}
use pktbaffle.Ebpf.Jumps.Load.{
  emit_load_byte-Post, emit_load_half-Post, emit_load_word-Post, then_expect-Post, check_byte-Post,
  check_word-Post, emit_ethertype-Post, ip4_guard-Post,
}

check_mac-Post : (m : MacAddr) (off : ℕ) → Keeps AllBelow (check_mac m off)
unfolding check_mac
check_mac-Post m off =
    append-Post (then_expect-Post _ _ (emit_load_word-Post off))
      (then_expect-Post _ _ (emit_load_half-Post (off + 4)))

check_mac_dir-Post : (dir : Dir) (m : MacAddr) → Keeps BothBelow (check_mac_dir dir m)
unfolding check_mac_dir
check_mac_dir-Post src m = by_dir-Post src (check_mac-Post m 6) (check_mac-Post m 0)
check_mac_dir-Post dst m = by_dir-Post dst (check_mac-Post m 6) (check_mac-Post m 0)
check_mac_dir-Post src_or_dst m = by_dir-Post src_or_dst (check_mac-Post m 0) (check_mac-Post m 6)
check_mac_dir-Post src_and_dst m = by_dir-Post src_and_dst (check_mac-Post m 0) (check_mac-Post m 6)

pub emit_ether_host-Post : (m : MacAddr) (dir : Dir) → Keeps BothBelow (emit_ether_host m dir)
unfolding emit_ether_host
emit_ether_host-Post m dir cg v =
    if-Post {cg = cg} (on_raw_ip cg.link) _ _ (failed refl) (check_mac_dir-Post dir m cg v)

multicast_bit-Post : Keeps BothBelow multicast_bit
unfolding multicast_bit here jset_imm ja
multicast_bit-Post cg v = bind-Post (emit_load_byte-Post 0 cg v) (λ _ _ v1 l1 a.
    bind-Post (push-Post _ _ v1 refl) (λ c _ v2 l2 b.
      bind-Post (push-Post _ _ v2 refl) (λ _ cg3 v3 l3 d.
        bind-Post (resolve-Post cg3 (slot c) (length cg3.insns) v3 (omega arith) (omega arith))
          (λ _ _ v4 l4 _.
            kept v4 (omega arith)
              (fails-BothBelow (before (omega arith) (before (omega arith) no_patch)))))))

pub emit_ether_multicast-Post : Keeps BothBelow emit_ether_multicast
unfolding emit_ether_multicast
emit_ether_multicast-Post cg v =
    if-Post {cg = cg} (on_raw_ip cg.link) _ _ (failed refl) (multicast_bit-Post cg v)

pub emit_ip_broadcast-Post : Keeps BothBelow emit_ip_broadcast
unfolding emit_ip_broadcast
emit_ip_broadcast-Post = extended-Post ip4_guard-Post (λ cg. check_word-Post _ 0xffffffff cg)

check_multicast-Post : (off : ℕ) → Keeps BothBelow (check_multicast off)
unfolding check_multicast and32_imm jne_imm
check_multicast-Post off cg v = bind-Post (emit_load_word-Post off cg v) (λ _ _ v1 l1 a.
    bind-Post (push-Post _ _ v1 refl) (λ _ _ v2 l2 _.
      bind-Post (push-Post _ _ v2 refl) (λ _ _ v3 l3 c.
        kept v3 (omega arith)
          (fails-BothBelow (before (omega arith) (before (omega arith) no_patch))))))

pub emit_ip_multicast-Post : Keeps BothBelow emit_ip_multicast
unfolding emit_ip_multicast
emit_ip_multicast-Post = extended-Post ip4_guard-Post (λ cg. check_multicast-Post _ cg)

pub emit_ip6_multicast-Post : Keeps BothBelow emit_ip6_multicast
unfolding emit_ip6_multicast
emit_ip6_multicast-Post =
    extended-Post (emit_ethertype-Post 0x86dd) (λ cg. check_byte-Post _ 0xff cg)

check_vlan_id-Post : (off vid : ℕ) → Keeps BothBelow (check_vlan_id off vid)
unfolding check_vlan_id and32_imm jne_imm
check_vlan_id-Post off vid cg v = bind-Post (emit_load_half-Post off cg v) (λ _ _ v1 l1 a.
    bind-Post (push-Post _ _ v1 refl) (λ _ _ v2 l2 _.
      bind-Post (push-Post _ _ v2 refl) (λ _ _ v3 l3 c.
        kept v3 (omega arith)
          (fails-BothBelow (before (omega arith) (before (omega arith) no_patch))))))

pub emit_vlan-Post : (id : Option ℕ) → Keeps BothBelow (emit_vlan id)
unfolding emit_vlan
emit_vlan-Post none = emit_ethertype-Post 0x8100
emit_vlan-Post (some vid) =
    extended-Post (emit_ethertype-Post 0x8100) (λ cg. check_vlan_id-Post _ vid cg)

check_mpls-Post : (off : ℕ) → Keeps BothBelow (check_mpls off)
unfolding check_mpls here jeq_imm jne_imm
check_mpls-Post off cg v = bind-Post (emit_load_half-Post off cg v) (λ _ _ v1 l1 a.
    bind-Post (push-Post _ _ v1 refl) (λ e _ v2 l2 b.
      bind-Post (push-Post _ _ v2 refl) (λ _ cg3 v3 l3 d.
        bind-Post (resolve-Post cg3 (slot e) (length cg3.insns) v3 (omega arith) (omega arith))
          (λ _ _ v4 l4 _.
            kept v4 (omega arith)
              (fails-BothBelow (before (omega arith) (before (omega arith) no_patch)))))))

check_label-Post : (off lbl : ℕ) → Keeps BothBelow (check_label off lbl)
unfolding check_label rsh32_imm jne_imm
check_label-Post off lbl cg v = bind-Post (emit_load_word-Post off cg v) (λ _ _ v1 l1 a.
    bind-Post (push-Post _ _ v1 refl) (λ _ _ v2 l2 _.
      bind-Post (push-Post _ _ v2 refl) (λ _ _ v3 l3 c.
        kept v3 (omega arith)
          (fails-BothBelow (before (omega arith) (before (omega arith) no_patch))))))

mpls_at-Post : (off : ℕ) (label : Option ℕ) → Keeps BothBelow (mpls_at off label)
unfolding mpls_at
mpls_at-Post off none = check_mpls-Post off
mpls_at-Post off (some lbl) = extended-Post (check_mpls-Post off) (check_label-Post (off + 2) lbl)

pub emit_mpls-Post : (label : Option ℕ) → Keeps BothBelow (emit_mpls label)
unfolding emit_mpls
emit_mpls-Post label cg v =
    option-Post {cg = cg} (link_ether_proto_offset cg.link) _ _ (λ off. mpls_at-Post off label cg v)
      (failed refl)

pub emit_pppoe_session-Post : (id : Option ℕ) → Keeps BothBelow (emit_pppoe_session id)
unfolding emit_pppoe_session
emit_pppoe_session-Post none cg v = emit_ethertype-Post 0x8864 cg v
emit_pppoe_session-Post (some id) cg v = bind-Post (emit_ethertype-Post 0x8864 cg v) (λ _ _ v1 l1 p.
    bind-Post (then_expect-Post _ id (emit_load_half-Post _) _ v1)
      (λ _ _ v2 l2 q. kept v2 (omega arith) (extended-BothBelow p l2 (fails-BothBelow q))))
