-- ===== src/Ebpf/Load.antt =====
-- pktbaffle/src/ebpf_codegen.rs: bounds-checked loads, ethertypes, addresses and networks.
use pktbaffle.Prelude.{
  ℕ, ◌+◌, ◌-◌, ◌*◌, ◌%◌, ◌^◌, List, [], ◌∷◌, ◌++◌, none, some, leb, ◌==◌, if◌then◌else◌, bit_and,
}
use pktbaffle.Ast.{Dir, src, dst, src_or_dst, src_and_dst, IpAddr, v4, v6, IpNet, Ipv6Net}
use pktbaffle.Codegen.Facts.{link_net_offset, link_ether_proto_offset}
use pktbaffle.Ebpf.{r1, r2, r3, r4, r5}
use pktbaffle.Ebpf.Build.{
  ldx_w, ldx_h, ldx_b, be16, be32, mov64_reg, add64_imm, jgt_reg, jne_imm, jeq_imm, and32_imm, ja,
}
use pktbaffle.Ebpf.State.{
  Patch, slot, Patches, no_patches, fails, M, ◌>>=◌, ◌>>◌, pure, throw, the_link, here, push,
  resolve_all, ethertype_on_raw_ip,
}

unfoldable pub emit_prologue : M (Unit {0})
emit_prologue = do push (ldx_w r2 r1 0); push (ldx_w r3 r1 4); pure tt

unfoldable pub push_ldx_h_be : (dst src off : ℕ) → M (Unit {0})
push_ldx_h_be d s off = do push (ldx_h d s off); push (be16 d); pure tt

unfoldable pub push_ldx_w_be : (dst src off : ℕ) → M (Unit {0})
push_ldx_w_be d s off = do push (ldx_w d s off); push (be32 d); pure tt

-- The check that `size` bytes at the offset are in the packet.
unfoldable pub bounds_check : (offset size : ℕ) → M ℕ
bounds_check offset size = do
  push (mov64_reg r5 r2)
  push (add64_imm r5 ((offset + size) % 2 ^ 32))
  push (jgt_reg r5 r3 0)

unfoldable pub emit_load_byte : ℕ → M Patch
emit_load_byte offset = do
  bc ← bounds_check offset 1
  push (ldx_b r4 r2 (offset % 2 ^ 16))
  pure (slot bc)

unfoldable pub emit_load_half : ℕ → M Patch
emit_load_half offset = do
  bc ← bounds_check offset 2
  push_ldx_h_be r4 r2 (offset % 2 ^ 16)
  pure (slot bc)

unfoldable pub emit_load_word : ℕ → M Patch
emit_load_word offset = do
  bc ← bounds_check offset 4
  push_ldx_w_be r4 r2 (offset % 2 ^ 16)
  pure (slot bc)

-- A load, then a jump unless R4 is the constant.
unfoldable pub then_expect : M Patch → ℕ → M (List Patch)
then_expect load expected = do
  bc ← load
  cmp ← push (jne_imm r4 expected 0)
  pure (bc ∷ slot cmp ∷ [])

unfoldable pub check_half : ℕ → ℕ → M Patches
check_half offset expected = do ps ← then_expect (emit_load_half offset) expected; pure (fails ps)

unfoldable pub check_byte : ℕ → ℕ → M Patches
check_byte offset expected = do ps ← then_expect (emit_load_byte offset) expected; pure (fails ps)

unfoldable pub check_word : ℕ → ℕ → M Patches
check_word offset expected = do ps ← then_expect (emit_load_word offset) expected; pure (fails ps)

-- `p.failure.extend(..)` and `p.success.extend(..)`.
abbrev pub extended : Patches → Patches → Patches
extended p q = record { success = p.success ++ q.success; failure = p.failure ++ q.failure }

unfoldable pub emit_ethertype : ℕ → M Patches
emit_ethertype et = do
  link ← the_link
  elim (link_ether_proto_offset link) [
    | some off ↦ check_half off et
    | none ↦ if et == 0x0800 then pure no_patches else throw (ethertype_on_raw_ip et)
  ]

unfoldable pub ip4_guard : M Patches
ip4_guard = emit_ethertype 0x0800

unfoldable pub emit_ip4_l4 : ℕ → M Patches
emit_ip4_l4 proto_num = do
  p ← ip4_guard
  link ← the_link
  q ← check_byte (link_net_offset link + 9) proto_num
  pure (extended p q)

unfoldable pub emit_ip6_l4 : ℕ → M Patches
emit_ip6_l4 next_hdr = do
  p ← emit_ethertype 0x86dd
  link ← the_link
  q ← check_byte (link_net_offset link + 6) next_hdr
  pure (extended p q)

-- The checks of a direction, of which `src_or_dst` takes the first that succeeds: the first check's
-- failures try the second, and its fall-through jumps past it.
unfoldable pub either_side : M (List Patch) → M (List Patch) → M Patches
either_side first second = do
  fails1 ← first
  ja_idx ← push (ja 0)
  start ← here
  resolve_all fails1 start
  fails2 ← second
  pure (record { success = slot ja_idx ∷ []; failure = fails2 })

unfoldable pub by_dir : Dir → M (List Patch) → M (List Patch) → M Patches
by_dir src s d = do a ← s; pure (fails a)
by_dir dst s d = do b ← d; pure (fails b)
by_dir src_and_dst s d = do a ← s; b ← d; pure (fails (a ++ b))
by_dir src_or_dst s d = either_side s d

unfoldable pub check_addr4 : (k src_off dst_off : ℕ) → Dir → M Patches
check_addr4 k src_off dst_off src = do ps ← then_expect (emit_load_word src_off) k; pure (fails ps)
check_addr4 k src_off dst_off dst = do ps ← then_expect (emit_load_word dst_off) k; pure (fails ps)
check_addr4 k src_off dst_off src_and_dst = do
  ps ← then_expect (emit_load_word src_off) k
  qs ← then_expect (emit_load_word dst_off) k
  pure (fails (ps ++ qs))
check_addr4 k src_off dst_off src_or_dst = do
  bc1 ← emit_load_word src_off
  eq_src ← push (jeq_imm r4 k 0)
  qs ← then_expect (emit_load_word dst_off) k
  pure (record { success = slot eq_src ∷ []; failure = bc1 ∷ qs })

unfoldable pub emit_host4 : ℕ → Dir → M Patches
emit_host4 addr dir = do
  p ← ip4_guard
  link ← the_link
  q ← check_addr4 addr (link_net_offset link + 12) (link_net_offset link + 16) dir
  pure (extended p q)

-- The closure `check_ip6`.
unfoldable pub check_ip6 : List ℕ → ℕ → M (List Patch)
check_ip6 [] off = pure []
check_ip6 (seg ∷ segs) off = do
  ps ← then_expect (emit_load_half off) seg
  rest ← check_ip6 segs (off + 2)
  pure (ps ++ rest)

unfoldable pub emit_host6 : List ℕ → Dir → M Patches
emit_host6 segs dir = do
  p ← emit_ethertype 0x86dd
  link ← the_link
  q ←
      by_dir dir (check_ip6 segs (link_net_offset link + 8))
        (check_ip6 segs (link_net_offset link + 24))
  pure (extended p q)

unfoldable pub emit_host : IpAddr → Dir → M Patches
emit_host (v4 a) dir = emit_host4 a dir
emit_host (v6 a) dir = emit_host6 a dir

-- The closure `check` of `emit_net`.
unfoldable pub check_net : (mask masked off : ℕ) → M (List Patch)
check_net mask masked off = do
  bc ← emit_load_word off
  push (and32_imm r4 mask)
  cmp ← push (jne_imm r4 masked 0)
  pure (bc ∷ slot cmp ∷ [])

unfoldable pub check_net_either : (mask masked src_off dst_off : ℕ) → M Patches
check_net_either mask masked src_off dst_off = do
  bc ← emit_load_word src_off
  push (and32_imm r4 mask)
  eq_src ← push (jeq_imm r4 masked 0)
  qs ← check_net mask masked dst_off
  pure (record { success = slot eq_src ∷ []; failure = bc ∷ qs })

unfoldable pub check_net_dir : Dir → (mask masked src_off dst_off : ℕ) → M Patches
check_net_dir src_or_dst mask masked s d = check_net_either mask masked s d
check_net_dir dir mask masked s d = by_dir dir (check_net mask masked s) (check_net mask masked d)

unfoldable pub emit_net : IpNet → Dir → M Patches
emit_net net dir = do
  p ← ip4_guard
  link ← the_link
  q ←
      check_net_dir dir net.mask (bit_and net.addr net.mask) (link_net_offset link + 12)
        (link_net_offset link + 16)
  pure (extended p q)

-- The closure `check_net6`, at the segment that starts at `start_bit`.
unfoldable pub check_part : (bits seg off : ℕ) → M (List Patch)
check_part bits seg off = do
  bc ← emit_load_half off
  push (and32_imm r4 (bit_and (0xffff * 2 ^ (16 - bits)) 0xffff))
  cmp ← push (jne_imm r4 (bit_and seg (bit_and (0xffff * 2 ^ (16 - bits)) 0xffff)) 0)
  pure (bc ∷ slot cmp ∷ [])

unfoldable pub check_net6 : List ℕ → (start_bit prefix_len off : ℕ) → M (List Patch)
check_net6 [] start_bit prefix_len off = pure []
check_net6 (seg ∷ segs) start_bit prefix_len off = if leb prefix_len start_bit then pure [] else do
  ps ←
      (if leb (start_bit + 16) prefix_len
        then then_expect (emit_load_half off) seg
        else check_part (prefix_len - start_bit) seg off)
  rest ← check_net6 segs (start_bit + 16) prefix_len (off + 2)
  pure (ps ++ rest)

unfoldable pub emit_net6 : Ipv6Net → Dir → M Patches
emit_net6 net dir = do
  p ← emit_ethertype 0x86dd
  link ← the_link
  q ←
      by_dir dir (check_net6 net.addr 0 net.prefix_len (link_net_offset link + 8))
        (check_net6 net.addr 0 net.prefix_len (link_net_offset link + 24))
  pure (extended p q)
