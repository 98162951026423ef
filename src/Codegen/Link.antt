-- ===== src/Codegen/Link.antt =====
-- pktbaffle/src/codegen.rs: MAC addresses, VLAN, MPLS and PPPoE.
use pktbaffle.Prelude.{
  ℕ, ◌+◌, ◌*◌, List, [], ◌∷◌, Bool, true, false, Option, none, some, if◌then◌else◌,
}
use pktbaffle.Bpf.Build.{ldw_abs, ldh_abs, ldb_abs, jeq_k, jset_k, and_k, rsh_k}
use pktbaffle.Ast.{Dir, src_or_dst, src, dst, src_and_dst, MacAddr}
use pktbaffle.Codegen.Facts.{LinkType, raw_ip}
use pktbaffle.Codegen.State.{
  Patch, Patches, no_patches, M, ◌>>=◌, ◌>>◌, pure, throw, get, push, ether_proto_offset,
  ether_host_on_raw_ip, ether_multicast_on_raw_ip, mpls_on_raw_ip,
}
use pktbaffle.Codegen.Check.{fails, emit_ethertype}
use pktbaffle.Codegen.Addr.{followed_by, either_side, both_sides}

abbrev pub is_raw_ip : LinkType → Bool
is_raw_ip raw_ip = true
is_raw_ip _ = false

-- The closure `check_mac`.
unfoldable pub check_mac : MacAddr → ℕ → M (List Patch)
check_mac addr off = do
  push (ldw_abs off)
  i1 ← push (jeq_k (((addr.b0 * 256 + addr.b1) * 256 + addr.b2) * 256 + addr.b3) 0 0xff)
  push (ldh_abs (off + 4))
  i2 ← push (jeq_k (addr.b4 * 256 + addr.b5) 0 0xff)
  pure (Patch.jf i1 ∷ Patch.jf i2 ∷ [])

-- The destination stands first in the frame, and is checked first.
unfoldable pub check_mac_dir : MacAddr → Dir → M Patches
check_mac_dir addr src = do a ← check_mac addr 6; pure (fails a)
check_mac_dir addr dst = do a ← check_mac addr 0; pure (fails a)
check_mac_dir addr src_and_dst = both_sides (check_mac addr 0) (check_mac addr 6)
check_mac_dir addr src_or_dst = either_side (check_mac addr 0) (check_mac addr 6)

unfoldable pub emit_ether_host : MacAddr → Dir → M Patches
emit_ether_host addr dir = do
  cg ← get
  if is_raw_ip cg.link then throw ether_host_on_raw_ip else check_mac_dir addr dir

unfoldable pub emit_ether_multicast : M Patches
emit_ether_multicast = do
  cg ← get
  if is_raw_ip cg.link
      then throw ether_multicast_on_raw_ip
      else (do push (ldb_abs 0); idx ← push (jset_k 0x01 0 0xff); pure (fails (Patch.jf idx ∷ [])))

-- `self.ether_proto_offset().unwrap_or(d)`.
abbrev pub unwrap_or : Option ℕ → ℕ → ℕ
unwrap_or none d = d
unwrap_or (some n) d = n

unfoldable pub check_vlan_id : Option ℕ → M Patches
check_vlan_id none = pure no_patches
check_vlan_id (some vid) = do
  cg ← get
  push (ldh_abs (unwrap_or (ether_proto_offset cg) 14 + 2))
  push (and_k 0x0fff)
  idx ← push (jeq_k vid 0 0xff)
  pure (fails (Patch.jf idx ∷ []))

unfoldable pub emit_vlan : Option ℕ → M Patches
emit_vlan id = do p ← emit_ethertype 0x8100; q ← check_vlan_id id; pure (followed_by p q)

unfoldable pub check_label : Option ℕ → ℕ → M (List Patch)
check_label none off = pure []
check_label (some lbl) off = do
  push (ldw_abs (off + 2))
  push (rsh_k 12)
  idx ← push (jeq_k lbl 0 0xff)
  pure (Patch.jf idx ∷ [])

unfoldable pub check_mpls : Option ℕ → ℕ → M Patches
check_mpls label off = do
  push (ldh_abs off)
  i_unicast ← push (jeq_k 0x8847 0xff 0)
  i_mcast ← push (jeq_k 0x8848 0 0xff)
  label_fails ← check_label label off
  pure (record { success = Patch.jt i_unicast ∷ []; failure = Patch.jf i_mcast ∷ label_fails })

unfoldable pub emit_mpls : Option ℕ → M Patches
emit_mpls label = do
  cg ← get
  elim (ether_proto_offset cg) [ some off ↦ check_mpls label off | none ↦ throw mpls_on_raw_ip ]

unfoldable pub check_session : Option ℕ → M Patches
check_session none = pure no_patches
check_session (some id) = do
  cg ← get
  push (ldh_abs (unwrap_or (ether_proto_offset cg) 12 + 4))
  idx ← push (jeq_k id 0 0xff)
  pure (fails (Patch.jf idx ∷ []))

unfoldable pub emit_pppoe_session : Option ℕ → M Patches
emit_pppoe_session id = do p ← emit_ethertype 0x8864; q ← check_session id; pure (followed_by p q)
