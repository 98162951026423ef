-- ===== src/Ebpf/Primitive.antt =====
-- pktbaffle/src/ebpf_codegen.rs: link-layer primitives, lengths and byte accesses.
use pktbaffle.Prelude.{
  ℕ, ◌+◌, ◌*◌, ◌%◌, ◌^◌, List, [], ◌∷◌, ◌++◌, Bool, true, false, Option, none, some, ◌==◌,
  if◌then◌else◌, bit_or,
}
use pktbaffle.Ast.{
  Primitive, Dir, MacAddr, src, dst, CmpOp, AccessSize, byte, half, word, Layer, raw, trans,
  ArithOp, CmpRhs, const, load, ByteAccess, host, port, port_range, net6, proto, ether_host,
  ether_proto, ether_multicast, ip_broadcast, ip_multicast, ip6_multicast, vlan, mpls,
  pppoe_discovery, pppoe_session, ip_proto_chain, ip6_proto_chain, len, inbound, outbound,
  byte_access,
}
use pktbaffle.Codegen.Facts.{LinkType, raw_ip, link_net_offset, link_ether_proto_offset}
use pktbaffle.Ebpf.{Insn, insn, r2, r3, r4, r6, bpf_alu64, bpf_sub, bpf_x}
use pktbaffle.Ebpf.Build.{
  mov64_reg, and32_imm, or32_imm, xor32_imm, add32_imm, sub32_imm, mul32_imm, div32_imm, lsh32_imm,
  rsh32_imm, jne_imm, jeq_imm, jgt_imm, jge_imm, jlt_imm, jle_imm, jset_imm, ja, ldx_b,
}
use pktbaffle.Ebpf.State.{
  Patch, slot, Patches, fails, M, Result, ◌>>=◌, ◌>>◌, pure, throw, the_link, here, push, resolve,
  ether_host_on_raw_ip, ether_multicast_on_raw_ip, mpls_on_raw_ip, load_compare_unsupported,
  division_by_zero, modulo_unsupported, direction_unsupported, ok, err,
}
use pktbaffle.Ebpf.Load.{
  push_ldx_h_be, push_ldx_w_be, emit_load_byte, emit_load_half, emit_load_word, then_expect,
  check_byte, check_word, extended, emit_ethertype, ip4_guard, emit_ip4_l4, emit_ip6_l4, by_dir,
  emit_host, emit_net, emit_net6,
}
use pktbaffle.Ebpf.Transport.{emit_proto, emit_port, emit_portrange, header_by_ihl, transport_check}

-- The closure `check_mac`.
unfoldable pub check_mac : MacAddr → ℕ → M (List Patch)
check_mac m offset = do
  ps ← then_expect (emit_load_word offset) (((m.b0 * 2 ^ 8 + m.b1) * 2 ^ 8 + m.b2) * 2 ^ 8 + m.b3)
  qs ← then_expect (emit_load_half (offset + 4)) (m.b4 * 2 ^ 8 + m.b5)
  pure (ps ++ qs)

-- The destination stands at offset 0 and the source at 6; both orders check the destination first.
unfoldable pub check_mac_dir : Dir → MacAddr → M Patches
check_mac_dir src m = by_dir src (check_mac m 6) (check_mac m 0)
check_mac_dir dst m = by_dir dst (check_mac m 6) (check_mac m 0)
check_mac_dir dir m = by_dir dir (check_mac m 0) (check_mac m 6)

unfoldable pub on_raw_ip : LinkType → Bool
on_raw_ip raw_ip = true
on_raw_ip _ = false

unfoldable pub emit_ether_host : MacAddr → Dir → M Patches
emit_ether_host addr dir = do
  link ← the_link
  if on_raw_ip link then throw ether_host_on_raw_ip else check_mac_dir dir addr

unfoldable pub multicast_bit : M Patches
multicast_bit = do
  bc ← emit_load_byte 0
  cmp ← push (jset_imm r4 0x01 0)
  ja_fail ← push (ja 0)
  after ← here
  resolve (slot cmp) after
  pure (fails (bc ∷ slot ja_fail ∷ []))

unfoldable pub emit_ether_multicast : M Patches
emit_ether_multicast = do
  link ← the_link
  if on_raw_ip link then throw ether_multicast_on_raw_ip else multicast_bit

unfoldable pub emit_ip_broadcast : M Patches
emit_ip_broadcast = do
  p ← ip4_guard
  link ← the_link
  q ← check_word (link_net_offset link + 16) 0xffffffff
  pure (extended p q)

unfoldable pub check_multicast : ℕ → M Patches
check_multicast dst_off = do
  bc ← emit_load_word dst_off
  push (and32_imm r4 0xf0000000)
  cmp ← push (jne_imm r4 0xe0000000 0)
  pure (fails (bc ∷ slot cmp ∷ []))

unfoldable pub emit_ip_multicast : M Patches
emit_ip_multicast = do
  p ← ip4_guard
  link ← the_link
  q ← check_multicast (link_net_offset link + 16)
  pure (extended p q)

unfoldable pub emit_ip6_multicast : M Patches
emit_ip6_multicast = do
  p ← emit_ethertype 0x86dd
  link ← the_link
  q ← check_byte (link_net_offset link + 24) 0xff
  pure (extended p q)

abbrev pub unwrap_or : Option ℕ → ℕ → ℕ
unwrap_or none d = d
unwrap_or (some o) d = o

unfoldable pub check_vlan_id : ℕ → ℕ → M Patches
check_vlan_id tci_off vid = do
  bc ← emit_load_half tci_off
  push (and32_imm r4 0x0fff)
  cmp ← push (jne_imm r4 vid 0)
  pure (fails (bc ∷ slot cmp ∷ []))

unfoldable pub emit_vlan : Option ℕ → M Patches
emit_vlan none = emit_ethertype 0x8100
emit_vlan (some vid) = do
  p ← emit_ethertype 0x8100
  link ← the_link
  q ← check_vlan_id (unwrap_or (link_ether_proto_offset link) 14 + 2) vid
  pure (extended p q)

unfoldable pub check_mpls : ℕ → M Patches
check_mpls off = do
  bc ← emit_load_half off
  eq_uni ← push (jeq_imm r4 0x8847 0)
  cmp_mc ← push (jne_imm r4 0x8848 0)
  after_et ← here
  resolve (slot eq_uni) after_et
  pure (fails (bc ∷ slot cmp_mc ∷ []))

unfoldable pub check_label : ℕ → ℕ → M Patches
check_label lse_off lbl = do
  bc2 ← emit_load_word lse_off
  push (rsh32_imm r4 12)
  cmp2 ← push (jne_imm r4 lbl 0)
  pure (fails (bc2 ∷ slot cmp2 ∷ []))

unfoldable pub mpls_at : ℕ → Option ℕ → M Patches
mpls_at off none = check_mpls off
mpls_at off (some lbl) = do p ← check_mpls off; q ← check_label (off + 2) lbl; pure (extended p q)

unfoldable pub emit_mpls : Option ℕ → M Patches
emit_mpls label = do
  link ← the_link
  elim (link_ether_proto_offset link) [ some off ↦ mpls_at off label | none ↦ throw mpls_on_raw_ip ]

unfoldable pub emit_pppoe_session : Option ℕ → M Patches
emit_pppoe_session none = emit_ethertype 0x8864
emit_pppoe_session (some id) = do
  p ← emit_ethertype 0x8864
  link ← the_link
  ps ← then_expect (emit_load_half (unwrap_or (link_ether_proto_offset link) 12 + 4)) id
  pure (extended p (fails ps))

unfoldable pub bit_test : ℕ → M Patches
bit_test v = do
  jset ← push (jset_imm r4 v 0)
  ja_fail ← push (ja 0)
  after ← here
  resolve (slot jset) after
  pure (fails (slot ja_fail ∷ []))

abbrev pub one_jump : Insn → M Patches
one_jump i = do idx ← push i; pure (fails (slot idx ∷ []))

unfoldable pub emit_cmp : CmpOp → ℕ → M Patches
emit_cmp CmpOp.eq v = one_jump (jne_imm r4 v 0)
emit_cmp CmpOp.ne v = one_jump (jeq_imm r4 v 0)
emit_cmp CmpOp.gt v = one_jump (jle_imm r4 v 0)
emit_cmp CmpOp.ge v = one_jump (jlt_imm r4 v 0)
emit_cmp CmpOp.lt v = one_jump (jge_imm r4 v 0)
emit_cmp CmpOp.le v = one_jump (jgt_imm r4 v 0)
emit_cmp CmpOp.bit_and v = bit_test v

unfoldable pub emit_len : CmpOp → ℕ → M Patches
emit_len op value = do
  push (mov64_reg r4 r3)
  push (insn (bit_or (bit_or bpf_alu64 bpf_sub) bpf_x) r4 r2 0 0)
  emit_cmp op value

-- `ebpf_alu32`.
unfoldable pub ebpf_alu32 : ArithOp → (d imm : ℕ) → Result Insn
ebpf_alu32 ArithOp.and d imm = ok (and32_imm d imm)
ebpf_alu32 ArithOp.or d imm = ok (or32_imm d imm)
ebpf_alu32 ArithOp.xor d imm = ok (xor32_imm d imm)
ebpf_alu32 ArithOp.add d imm = ok (add32_imm d imm)
ebpf_alu32 ArithOp.sub d imm = ok (sub32_imm d imm)
ebpf_alu32 ArithOp.mul d imm = ok (mul32_imm d imm)
ebpf_alu32 ArithOp.div d imm = if imm == 0 then err division_by_zero else ok (div32_imm d imm)
ebpf_alu32 ArithOp.modulo d imm = err modulo_unsupported
ebpf_alu32 ArithOp.shl d imm = ok (lsh32_imm d imm)
ebpf_alu32 ArithOp.shr d imm = ok (rsh32_imm d imm)

abbrev pub push_result : Result Insn → M ℕ
push_result (ok i) = push i
push_result (err e) = throw e

unfoldable pub alu_ops : List (ArithOp × ℕ) → M (Unit {0})
alu_ops [] = pure tt
alu_ops ((aop, operand) ∷ ops) = do push_result (ebpf_alu32 aop r4 operand); alu_ops ops

unfoldable pub sized_load : AccessSize → ℕ → M Patch
sized_load byte off = emit_load_byte off
sized_load half off = emit_load_half off
sized_load word off = emit_load_word off

unfoldable pub absolute_access : ByteAccess → (off value : ℕ) → M Patches
absolute_access ba off value = do
  bc ← sized_load ba.size off
  alu_ops ba.alu_ops
  p ← emit_cmp ba.op value
  pure (extended (fails (bc ∷ [])) p)

abbrev pub size_bytes : AccessSize → ℕ
size_bytes byte = 1
size_bytes half = 2
size_bytes word = 4

unfoldable pub transport_load : AccessSize → ℕ → M (Unit {0})
transport_load byte off = do push (ldx_b r4 r6 off); pure tt
transport_load half off = push_ldx_h_be r4 r6 off
transport_load word off = push_ldx_w_be r4 r6 off

unfoldable pub emit_trans_byte_access : ByteAccess → ℕ → M Patches
emit_trans_byte_access ba value = do
  link ← the_link
  bc_ihl ← header_by_ihl (link_net_offset link)
  bc_trans ← transport_check ((ba.offset + size_bytes ba.size) % 2 ^ 32)
  transport_load ba.size (ba.offset % 2 ^ 16)
  alu_ops ba.alu_ops
  p ← emit_cmp ba.op value
  pure (extended p (fails (bc_ihl ∷ bc_trans ∷ [])))

unfoldable pub access_on : Layer → ByteAccess → ℕ → M Patches
access_on raw ba value = absolute_access ba (ba.offset % 2 ^ 32) value
access_on Layer.net ba value = do
  link ← the_link
  absolute_access ba ((link_net_offset link + ba.offset) % 2 ^ 32) value
access_on trans ba value = emit_trans_byte_access ba value

abbrev pub access_rhs : CmpRhs → ByteAccess → M Patches
access_rhs (const v) ba = access_on ba.layer ba v
access_rhs (load l) ba = throw load_compare_unsupported

unfoldable pub emit_byte_access : ByteAccess → M Patches
emit_byte_access ba = access_rhs ba.rhs ba

unfoldable pub emit_primitive : Primitive → M Patches
emit_primitive (proto p) = emit_proto p
emit_primitive (host addr dir) = emit_host addr dir
emit_primitive (Primitive.net n dir) = emit_net n dir
emit_primitive (net6 n dir) = emit_net6 n dir
emit_primitive (port p dir pr) = emit_port p dir pr
emit_primitive (port_range lo hi dir pr) = emit_portrange lo hi dir pr
emit_primitive (ether_host addr dir) = emit_ether_host addr dir
emit_primitive (ether_proto et) = emit_ethertype et
emit_primitive ether_multicast = emit_ether_multicast
emit_primitive ip_broadcast = emit_ip_broadcast
emit_primitive ip_multicast = emit_ip_multicast
emit_primitive ip6_multicast = emit_ip6_multicast
emit_primitive (vlan id) = emit_vlan id
emit_primitive (mpls label) = emit_mpls label
emit_primitive pppoe_discovery = emit_ethertype 0x8863
emit_primitive (pppoe_session id) = emit_pppoe_session id
emit_primitive (ip_proto_chain n) = emit_ip4_l4 n
emit_primitive (ip6_proto_chain n) = emit_ip6_l4 n
emit_primitive (len op value) = emit_len op value
emit_primitive (byte_access ba) = emit_byte_access ba
emit_primitive inbound = throw direction_unsupported
emit_primitive outbound = throw direction_unsupported
