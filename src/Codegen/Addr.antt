-- ===== src/Codegen/Addr.antt =====
-- pktbaffle/src/codegen.rs: hosts, networks and multicast addresses.
use pktbaffle.Prelude.{
  ℕ, ◌+◌, ◌-◌, ◌*◌, ◌^◌, ◌%◌, bit_and, List, [], ◌∷◌, ◌++◌, leb, if◌then◌else◌, length,
}
use pktbaffle.Bpf.Build.{ldw_abs, ldh_abs, jeq_k, and_k, ja}
use pktbaffle.Ast.{Dir, src_or_dst, src, dst, src_and_dst, IpAddr, v4, v6, IpNet, Ipv6Net}
use pktbaffle.Codegen.State.{
  Patch, Patches, M, ◌>>=◌, ◌>>◌, pure, get, push, net_offset, resolve_all,
}
use pktbaffle.Codegen.Check.{fails, check_word, check_byte, ip4_guard, emit_ethertype}

-- Prerequisites `p`, then `q`.
abbrev pub followed_by : Patches → Patches → Patches
followed_by p q = record { success = p.success ++ q.success; failure = p.failure ++ q.failure }

-- The four directions of a check that returns its failures: one side, both sides, or the first side
-- with its failures led to the second and a `ja` over it.
unfoldable pub either_side : M (List Patch) → M (List Patch) → M Patches
either_side first second = do
  first_fails ← first
  ja_idx ← push (ja 0)
  cg ← get
  resolve_all first_fails (length cg.insns)
  second_fails ← second
  pure (record { success = Patch.ja ja_idx ∷ []; failure = second_fails })

unfoldable pub both_sides : M (List Patch) → M (List Patch) → M Patches
both_sides first second = do a ← first; b ← second; pure (fails (a ++ b))

unfoldable pub by_dir : Dir → M (List Patch) → M (List Patch) → M Patches
by_dir src s d = do a ← s; pure (fails a)
by_dir dst s d = do b ← d; pure (fails b)
by_dir src_and_dst s d = both_sides s d
by_dir src_or_dst s d = either_side s d

unfoldable pub check_addr4 : ℕ → ℕ → ℕ → Dir → M Patches
check_addr4 k src_off dst_off src = do
  push (ldw_abs src_off)
  i ← push (jeq_k k 0 0xff)
  pure (fails (Patch.jf i ∷ []))
check_addr4 k src_off dst_off dst = do
  push (ldw_abs dst_off)
  i ← push (jeq_k k 0 0xff)
  pure (fails (Patch.jf i ∷ []))
check_addr4 k src_off dst_off src_and_dst = do
  push (ldw_abs src_off)
  i1 ← push (jeq_k k 0 0xff)
  push (ldw_abs dst_off)
  i2 ← push (jeq_k k 0 0xff)
  pure (fails (Patch.jf i1 ∷ Patch.jf i2 ∷ []))
check_addr4 k src_off dst_off src_or_dst = do
  push (ldw_abs src_off)
  i_src ← push (jeq_k k 0xff 0)
  push (ldw_abs dst_off)
  i_dst ← push (jeq_k k 0 0xff)
  pure (record { success = Patch.jt i_src ∷ []; failure = Patch.jf i_dst ∷ [] })

unfoldable pub emit_host4 : ℕ → Dir → M Patches
emit_host4 addr dir = do
  p ← ip4_guard
  cg ← get
  q ← check_addr4 addr (net_offset cg + 12) (net_offset cg + 16) dir
  pure (followed_by p q)

-- The closure `check_ip6_addr`, over the segments from `off` on.
unfoldable pub check_ip6_addr : List ℕ → ℕ → M (List Patch)
check_ip6_addr [] off = pure []
check_ip6_addr (seg ∷ segs) off = do
  push (ldh_abs off)
  idx ← push (jeq_k seg 0 0xff)
  rest ← check_ip6_addr segs (off + 2)
  pure (Patch.jf idx ∷ rest)

unfoldable pub emit_host6 : List ℕ → Dir → M Patches
emit_host6 segs dir = do
  p ← emit_ethertype 0x86dd
  cg ← get
  q ←
      by_dir dir (check_ip6_addr segs (net_offset cg + 8))
        (check_ip6_addr segs (net_offset cg + 24))
  pure (followed_by p q)

unfoldable pub emit_host : IpAddr → Dir → M Patches
emit_host (v4 a) dir = emit_host4 a dir
emit_host (v6 a) dir = emit_host6 a dir

-- The closure `check` of `emit_net`.
unfoldable pub check_net : ℕ → ℕ → ℕ → M (List Patch)
check_net mask masked off = do
  push (ldw_abs off)
  push (and_k mask)
  idx ← push (jeq_k masked 0 0xff)
  pure (Patch.jf idx ∷ [])

unfoldable pub check_net_either : ℕ → ℕ → ℕ → ℕ → M Patches
check_net_either mask masked src_off dst_off = do
  push (ldw_abs src_off)
  push (and_k mask)
  i_src ← push (jeq_k masked 0xff 0)
  push (ldw_abs dst_off)
  push (and_k mask)
  i_dst ← push (jeq_k masked 0 0xff)
  pure (record { success = Patch.jt i_src ∷ []; failure = Patch.jf i_dst ∷ [] })

abbrev pub check_net_dir : Dir → ℕ → ℕ → ℕ → ℕ → M Patches
check_net_dir src mask masked s d = do a ← check_net mask masked s; pure (fails a)
check_net_dir dst mask masked s d = do b ← check_net mask masked d; pure (fails b)
check_net_dir src_and_dst mask masked s d =
    both_sides (check_net mask masked s) (check_net mask masked d)
check_net_dir src_or_dst mask masked s d = check_net_either mask masked s d

unfoldable pub emit_net : IpNet → Dir → M Patches
emit_net net dir = do
  p ← ip4_guard
  cg ← get
  let masked = bit_and net.addr net.mask
  q ← check_net_dir dir net.mask masked (net_offset cg + 12) (net_offset cg + 16)
  pure (followed_by p q)

-- The two loop bodies of the closure `check_net6`: a whole segment, and the first bits of one.
unfoldable pub whole_segment : ℕ → ℕ → M (List Patch)
whole_segment seg off = do
  push (ldh_abs off)
  idx ← push (jeq_k seg 0 0xff)
  pure (Patch.jf idx ∷ [])

unfoldable pub segment_mask : ℕ → ℕ
segment_mask bits = bit_and (0xffff * 2 ^ (16 - bits) % 2 ^ 32) 0xffff

unfoldable pub part_segment : ℕ → ℕ → ℕ → M (List Patch)
part_segment seg bits off = do
  push (ldh_abs off)
  push (and_k (segment_mask bits))
  idx ← push (jeq_k (bit_and seg (segment_mask bits)) 0 0xff)
  pure (Patch.jf idx ∷ [])

-- The closure, over the segments from bit `start_bit` and offset `off` on.
unfoldable pub check_net6 : List ℕ → ℕ → ℕ → ℕ → M (List Patch)
check_net6 [] prefix_len start_bit off = pure []
check_net6 (seg ∷ segs) prefix_len start_bit off =
    let rest : M (List Patch) = check_net6 segs prefix_len (start_bit + 16) (off + 2) in
    let here : M (List Patch) =
      if leb (start_bit + 16) prefix_len
      then whole_segment seg off
      else part_segment seg (prefix_len - start_bit) off in
    if leb prefix_len start_bit then pure [] else (do a ← here; b ← rest; pure (a ++ b))

unfoldable pub emit_net6 : Ipv6Net → Dir → M Patches
emit_net6 net dir = do
  p ← emit_ethertype 0x86dd
  cg ← get
  let check = λ (off : ℕ). check_net6 net.addr net.prefix_len 0 off
  q ← by_dir dir (check (net_offset cg + 8)) (check (net_offset cg + 24))
  pure (followed_by p q)

unfoldable pub emit_ip_broadcast : M Patches
emit_ip_broadcast = do
  p ← ip4_guard
  cg ← get
  q ← check_word (net_offset cg + 16) 0xffffffff
  pure (record p { failure = p.failure ++ q.failure })

unfoldable pub emit_ip_multicast : M Patches
emit_ip_multicast = do
  p ← ip4_guard
  cg ← get
  push (ldw_abs (net_offset cg + 16))
  push (and_k 0xf000_0000)
  idx ← push (jeq_k 0xe000_0000 0 0xff)
  pure (record p { failure = p.failure ++ Patch.jf idx ∷ [] })

unfoldable pub emit_ip6_multicast : M Patches
emit_ip6_multicast = do
  p ← emit_ethertype 0x86dd
  cg ← get
  q ← check_byte (net_offset cg + 24) 0xff
  pure (record p { failure = p.failure ++ q.failure })
