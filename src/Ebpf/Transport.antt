-- ===== src/Ebpf/Transport.antt =====
-- pktbaffle/src/ebpf_codegen.rs: protocols and ports over both network layers, with R6 at the transport header.
use pktbaffle.Prelude.{ℕ, ◌+◌, List, [], ◌∷◌, ◌++◌, Option, none, some}
use pktbaffle.Ast.{
  Proto, Dir, src_or_dst, tcp, udp, sctp, ip, ip6, arp, rarp, icmp, igmp, icmp6, num, ip6_proto,
}
use pktbaffle.Codegen.Facts.{link_net_offset, link_ether_proto_offset}
use pktbaffle.Ebpf.{r2, r3, r4, r5, r6}
use pktbaffle.Ebpf.Build.{
  mov64_reg, add64_imm, add64_reg, and32_imm, lsh32_imm, jgt_reg, jne_imm, jeq_imm, jlt_imm,
  jgt_imm, ja,
}
use pktbaffle.Ebpf.State.{
  Patch, slot, Patches, fails, M, ◌>>=◌, ◌>>◌, pure, throw, the_link, here, push, resolve,
  port_proto_unsupported,
}
use pktbaffle.Ebpf.Load.{
  push_ldx_h_be, emit_load_byte, emit_load_half, check_byte, extended, emit_ethertype, ip4_guard,
  emit_ip4_l4, emit_ip6_l4, by_dir,
}

-- Resolve to the next instruction.
abbrev pub resolve_here : Patch → M (Unit {0})
resolve_here p = do t ← here; resolve p t

unfoldable pub dual_l4 : (ether_off net_off proto_num : ℕ) → M Patches
dual_l4 ether_off net_off proto_num = do
  bc_et ← emit_load_half ether_off
  jmp_to_ipv4 ← push (jeq_imm r4 0x0800 0)
  not_ipv6 ← push (jne_imm r4 0x86dd 0)
  q6 ← check_byte (net_off + 6) proto_num
  skip ← push (ja 0)
  ipv4_start ← here
  resolve (slot jmp_to_ipv4) ipv4_start
  q4 ← check_byte (net_off + 9) proto_num
  after ← here
  resolve (slot skip) after
  pure (fails (bc_et ∷ slot not_ipv6 ∷ q6.failure ++ q4.failure))

unfoldable pub emit_dual_l4 : ℕ → M Patches
emit_dual_l4 proto_num = do
  link ← the_link
  elim (link_ether_proto_offset link) [
    | some ether_off ↦ dual_l4 ether_off (link_net_offset link) proto_num
    | none ↦ emit_ip4_l4 proto_num
  ]

unfoldable pub emit_proto : Proto → M Patches
emit_proto ip = emit_ethertype 0x0800
emit_proto ip6 = emit_ethertype 0x86dd
emit_proto arp = emit_ethertype 0x0806
emit_proto rarp = emit_ethertype 0x8035
emit_proto tcp = emit_dual_l4 6
emit_proto udp = emit_dual_l4 17
emit_proto sctp = emit_dual_l4 132
emit_proto icmp = emit_ip4_l4 1
emit_proto igmp = emit_ip4_l4 2
emit_proto icmp6 = emit_ip6_l4 58
emit_proto (num n) = emit_ip4_l4 n
emit_proto (ip6_proto n) = emit_ip6_l4 n

-- TCP or UDP: an equal 6 skips the check of 17.
unfoldable pub tcp_or_udp : ℕ → M Patches
tcp_or_udp proto_off = do
  bc ← emit_load_byte proto_off
  eq_tcp ← push (jeq_imm r4 6 0)
  cmp_udp ← push (jne_imm r4 17 0)
  after_udp ← here
  resolve (slot eq_tcp) after_udp
  pure (fails (bc ∷ slot cmp_udp ∷ []))

unfoldable pub emit_l4_proto_check : ℕ → Option Proto → M Patches
emit_l4_proto_check proto_off (some tcp) = check_byte proto_off 6
emit_l4_proto_check proto_off (some udp) = check_byte proto_off 17
emit_l4_proto_check proto_off (some sctp) = check_byte proto_off 132
emit_l4_proto_check proto_off none = tcp_or_udp proto_off
emit_l4_proto_check proto_off pr = throw (port_proto_unsupported pr)

-- R6 = R2 + net_off + IHL * 4.
unfoldable pub header_by_ihl : ℕ → M Patch
header_by_ihl net_off = do
  bc_ihl ← emit_load_byte net_off
  push (and32_imm r4 0x0f)
  push (lsh32_imm r4 2)
  push (mov64_reg r6 r2)
  push (add64_imm r6 net_off)
  push (add64_reg r6 r4)
  pure bc_ihl

-- The check that `size` bytes from R6 are in the packet.
unfoldable pub transport_check : ℕ → M Patch
transport_check size = do
  push (mov64_reg r5 r6)
  push (add64_imm r5 size)
  bc ← push (jgt_reg r5 r3 0)
  pure (slot bc)

unfoldable pub emit_port_prereqs_ipv4_only : Option Proto → M Patches
emit_port_prereqs_ipv4_only proto = do
  p ← ip4_guard
  link ← the_link
  q ← emit_l4_proto_check (link_net_offset link + 9) proto
  bc_ihl ← header_by_ihl (link_net_offset link)
  bc_trans ← transport_check 4
  pure (fails (p.failure ++ q.failure ++ (bc_ihl ∷ bc_trans ∷ [])))

unfoldable pub dual_prereqs : (ether_off net_off : ℕ) → Option Proto → M Patches
dual_prereqs ether_off net_off proto = do
  bc_et ← emit_load_half ether_off
  jmp_to_ipv4 ← push (jeq_imm r4 0x0800 0)
  not_ipv6 ← push (jne_imm r4 0x86dd 0)
  q6 ← emit_l4_proto_check (net_off + 6) proto
  push (mov64_reg r6 r2)
  push (add64_imm r6 (net_off + 40))
  bc_v6 ← transport_check 4
  ja_skip_v4 ← push (ja 0)
  ipv4_start ← here
  resolve (slot jmp_to_ipv4) ipv4_start
  q4 ← emit_l4_proto_check (net_off + 9) proto
  bc_ihl ← header_by_ihl net_off
  bc_v4 ← transport_check 4
  port_check_start ← here
  resolve (slot ja_skip_v4) port_check_start
  pure (
      fails (bc_et ∷ slot not_ipv6 ∷ (q6.failure ++ (bc_v6 ∷ q4.failure) ++ (bc_ihl ∷ bc_v4 ∷ []))))

unfoldable pub emit_port_prereqs : Option Proto → M Patches
emit_port_prereqs proto = do
  link ← the_link
  elim (link_ether_proto_offset link) [
    | some ether_off ↦ dual_prereqs ether_off (link_net_offset link) proto
    | none ↦ emit_port_prereqs_ipv4_only proto
  ]

-- A port field at R6, compared with the port.
unfoldable pub check_port : (k off : ℕ) → M (List Patch)
check_port k off = do push_ldx_h_be r4 r6 off; cmp ← push (jne_imm r4 k 0); pure (slot cmp ∷ [])

unfoldable pub check_port_either : ℕ → M Patches
check_port_either k = do
  push_ldx_h_be r4 r6 0
  eq_src ← push (jeq_imm r4 k 0)
  qs ← check_port k 2
  pure (record { success = slot eq_src ∷ []; failure = qs })

unfoldable pub check_port_dir : Dir → ℕ → M Patches
check_port_dir src_or_dst k = check_port_either k
check_port_dir dir k = by_dir dir (check_port k 0) (check_port k 2)

unfoldable pub emit_port : ℕ → Dir → Option Proto → M Patches
emit_port port dir proto = do
  p ← emit_port_prereqs proto
  q ← check_port_dir dir port
  pure (extended p q)

-- The closure `check_range`.
unfoldable pub check_range : (lo hi off : ℕ) → M (List Patch)
check_range lo hi off = do
  push_ldx_h_be r4 r6 off
  i_lo ← push (jlt_imm r4 lo 0)
  i_hi ← push (jgt_imm r4 hi 0)
  pure (slot i_lo ∷ slot i_hi ∷ [])

unfoldable pub emit_portrange : (lo hi : ℕ) → Dir → Option Proto → M Patches
emit_portrange lo hi dir proto = do
  p ← emit_port_prereqs proto
  q ← by_dir dir (check_range lo hi 0) (check_range lo hi 2)
  pure (extended p q)
