-- ===== src/Codegen/Check.antt =====
-- pktbaffle/src/codegen.rs: the checks of a packet field, the ethertype and the L4 protocol.
use pktbaffle.Prelude.{
  ℕ, ◌+◌, List, [], ◌∷◌, ◌++◌, Bool, false, Option, none, some, ◌==◌, if◌then◌else◌, length,
}
use pktbaffle.Bpf.Build.{ldw_abs, ldh_abs, ldb_abs, jeq_k}
use pktbaffle.Ast.{Proto, ip, ip6, arp, rarp, tcp, udp, icmp, icmp6, igmp, sctp, num, ip6_proto}
use pktbaffle.Codegen.Facts.{L4Set, one, tcp_or_udp}
use pktbaffle.Codegen.State.{
  Patch, Patches, no_patches, M, ◌>>=◌, ◌>>◌, pure, throw, get, set_facts, push, net_offset,
  ether_proto_offset, resolve, ethertype_on_raw_ip,
}

abbrev pub fails : List Patch → Patches
fails ps = record { success = []; failure = ps }

-- A load, then a comparison whose `jf` is a failure.
unfoldable pub check_halfword : ℕ → ℕ → M Patches
check_halfword off expected = do
  push (ldh_abs off)
  idx ← push (jeq_k expected 0 0xff)
  pure (fails (Patch.jf idx ∷ []))

unfoldable pub check_byte : ℕ → ℕ → M Patches
check_byte off expected = do
  push (ldb_abs off)
  idx ← push (jeq_k expected 0 0xff)
  pure (fails (Patch.jf idx ∷ []))

unfoldable pub check_word : ℕ → ℕ → M Patches
check_word off expected = do
  push (ldw_abs off)
  idx ← push (jeq_k expected 0 0xff)
  pure (fails (Patch.jf idx ∷ []))

-- `self.facts.field == Some(v)`.
unfoldable pub pins : Option ℕ → ℕ → Bool
pins none v = false
pins (some w) v = w == v

-- A fact stays where the path pins another value already.
unfoldable pub record_fact : Option ℕ → ℕ → Option ℕ
record_fact none v = some v
record_fact (some w) v = some w

unfoldable pub check_ethertype : ℕ → ℕ → M Patches
check_ethertype off et = do
  cg ← get
  if pins cg.facts.ethertype et then pure no_patches else (do
    p ← check_halfword off et
    after ← get
    set_facts (record (after.facts) { ethertype = record_fact after.facts.ethertype et })
    pure p)

unfoldable pub emit_ethertype : ℕ → M Patches
emit_ethertype et = do
  cg ← get
  elim (ether_proto_offset cg) [
    | some off ↦ check_ethertype off et
    | none ↦ if et == 0x0800 then pure no_patches else throw (ethertype_on_raw_ip et)
  ]

unfoldable pub ip4_guard : M Patches
ip4_guard = emit_ethertype 0x0800

unfoldable pub emit_ip4_l4 : ℕ → M Patches
emit_ip4_l4 proto_num = do
  p ← ip4_guard
  cg ← get
  if pins cg.facts.ip4_proto proto_num then pure p else (do
    q ← check_byte (net_offset cg + 9) proto_num
    after ← get
    set_facts (record (after.facts) { ip4_proto = record_fact after.facts.ip4_proto proto_num })
    pure (record { success = p.success ++ q.success; failure = p.failure ++ q.failure }))

unfoldable pub emit_ip6_l4 : ℕ → M Patches
emit_ip6_l4 next_hdr = do
  p ← emit_ethertype 0x86dd
  cg ← get
  if pins cg.facts.ip6_nh next_hdr then pure p else (do
    q ← check_byte (net_offset cg + 6) next_hdr
    after ← get
    set_facts (record (after.facts) { ip6_nh = record_fact after.facts.ip6_nh next_hdr })
    pure (record p { failure = p.failure ++ q.failure }))

unfoldable pub emit_proto : Proto → M Patches
emit_proto ip = emit_ethertype 0x0800
emit_proto ip6 = emit_ethertype 0x86dd
emit_proto arp = emit_ethertype 0x0806
emit_proto rarp = emit_ethertype 0x8035
emit_proto tcp = emit_ip4_l4 6
emit_proto udp = emit_ip4_l4 17
emit_proto icmp = emit_ip4_l4 1
emit_proto igmp = emit_ip4_l4 2
emit_proto sctp = emit_ip4_l4 132
emit_proto icmp6 = emit_ip6_l4 58
emit_proto (num n) = emit_ip4_l4 n
emit_proto (ip6_proto n) = emit_ip6_l4 n

-- The match of A against a protocol set; returns the failures.
unfoldable pub emit_l4_set_check : L4Set → M (List Patch)
emit_l4_set_check (one n) = do i ← push (jeq_k n 0 0xff); pure (Patch.jf i ∷ [])
emit_l4_set_check tcp_or_udp = do
  i_tcp ← push (jeq_k 6 0xff 0)
  i_udp ← push (jeq_k 17 0 0xff)
  cg ← get
  resolve (Patch.jt i_tcp) (length cg.insns)
  pure (Patch.jf i_udp ∷ [])
