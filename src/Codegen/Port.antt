-- ===== src/Codegen/Port.antt =====
-- pktbaffle/src/codegen.rs: ports, port ranges and the prologue that they need.
use pktbaffle.Prelude.{
  ℕ, ◌+◌, List, [], ◌∷◌, ◌++◌, Bool, true, false, Option, none, some, if◌then◌else◌, length,
}
use pktbaffle.Bpf.Build.{
  ldh_abs, ldb_abs, ldh_ind, jeq_k, jge_k, jgt_k, jset_k, ldx_msh, ldx_imm, ja,
}
use pktbaffle.Ast.{Dir, src_or_dst, src, dst, src_and_dst, Proto}
use pktbaffle.Codegen.Facts.{L4Set, one, tcp_or_udp, contains, subset_of}
use pktbaffle.Codegen.Guards.{l4set_for}
use pktbaffle.Codegen.State.{
  Patch, Patches, no_patches, M, ◌>>=◌, ◌>>◌, pure, throw, get, set_facts, push, net_offset,
  ether_proto_offset, resolve, port_proto_unsupported, panicked,
}
use pktbaffle.Codegen.Check.{fails, pins, record_fact, emit_l4_set_check}
use pktbaffle.Codegen.Addr.{followed_by, by_dir}

-- The protocol byte, and its check.
unfoldable pub check_proto : L4Set → ℕ → M (List Patch)
check_proto want off = do push (ldb_abs off); emit_l4_set_check want

-- `match self.facts.… { Some(n) if want.contains(n) => L4Set::One(n), _ => check }`.
unfoldable pub pinned_member : L4Set → Option ℕ → Option ℕ
pinned_member want none = none
pinned_member want (some n) = if contains want n then some n else none

abbrev pub Established : Type 0
Established = L4Set × List Patch

unfoldable pub establish : L4Set → Option ℕ → ℕ → M Established
establish want pinned off = elim (pinned_member want pinned) [
  | some n ↦ pure (one n, [])
  | none ↦ do ps ← check_proto want off; pure (want, ps)
]

-- IPv4 with nothing in place yet: the protocol, the fragment guard, X = IHL * 4.
unfoldable pub fresh_v4 : L4Set → M Established
fresh_v4 want = do
  cg ← get
  e ← establish want cg.facts.ip4_proto (net_offset cg + 9)
  push (ldh_abs (net_offset cg + 6))
  i_frag ← push (jset_k 0x1fff 0xff 0)
  push (ldx_msh (net_offset cg))
  pure (e.0, e.1 ++ Patch.jt i_frag ∷ [])

unfoldable pub fresh_v6 : L4Set → M Established
fresh_v6 want = do
  cg ← get
  e ← establish want cg.facts.ip6_nh (net_offset cg + 6)
  push (ldx_imm 40)
  pure e

-- A broader prologue is in place: only the protocol is narrowed.
unfoldable pub narrow : L4Set → ℕ → M Established
narrow want off = do ps ← check_proto want off; pure (want, ps)

-- `if let L4Set::One(n) = established { if fact.is_none() { fact = Some(n) } }`.
unfoldable pub established_fact : L4Set → Option ℕ → Option ℕ
established_fact (one n) fact = record_fact fact n
established_fact tcp_or_udp fact = fact

abbrev pub is_some {ℓ} : {A : Type ℓ} → Option A → Bool
is_some none = false
is_some (some _) = true

unfoldable pub prologue_v4 : L4Set → M Patches
prologue_v4 want = do
  cg ← get
  e ← (if is_some cg.facts.ports_ready then narrow want (net_offset cg + 9) else fresh_v4 want)
  after ← get
  set_facts (record (after.facts) {
    ip4_proto = established_fact e.0 after.facts.ip4_proto;
    ports_ready = some e.0;
  })
  pure (fails e.1)

unfoldable pub prologue_v6 : L4Set → M Patches
prologue_v6 want = do
  cg ← get
  e ← (if is_some cg.facts.ports_ready then narrow want (net_offset cg + 6) else fresh_v6 want)
  after ← get
  set_facts (record (after.facts) {
    ip6_nh = established_fact e.0 after.facts.ip6_nh;
    ports_ready = some e.0;
  })
  pure (fails e.1)

-- The ethertype is not known to be IP: both paths, which meet at the port check.
unfoldable pub prologue_dual : L4Set → M Patches
prologue_dual want = do
  cg ← get
  ether_off ← elim (ether_proto_offset cg) [ some off ↦ pure off | none ↦ throw panicked ]
  push (ldh_abs ether_off)
  i_is_ip6 ← push (jeq_k 0x86dd 0xff 0)
  i_is_ip4 ← push (jeq_k 0x0800 0 0xff)
  v4_fails ← check_proto want (net_offset cg + 9)
  push (ldh_abs (net_offset cg + 6))
  i_frag ← push (jset_k 0x1fff 0xff 0)
  push (ldx_msh (net_offset cg))
  ja_skip_ip6 ← push (ja 0)
  at_ip6 ← get
  resolve (Patch.jt i_is_ip6) (length at_ip6.insns)
  v6_fails ← check_proto want (net_offset cg + 6)
  push (ldx_imm 40)
  at_end ← get
  resolve (Patch.ja ja_skip_ip6) (length at_end.insns)
  after ← get
  set_facts (record (after.facts) { ports_ready = some want })
  pure (fails (Patch.jf i_is_ip4 ∷ (v4_fails ++ Patch.jt i_frag ∷ v6_fails)))

-- `if let Some(have) = self.facts.ports_ready { if have.subset_of(want) … }`.
unfoldable pub already_ready : Option L4Set → L4Set → Bool
already_ready none want = false
already_ready (some have) want = subset_of have want

unfoldable pub emit_port_prereqs_set : L4Set → M Patches
emit_port_prereqs_set want = do
  cg ← get
  if already_ready cg.facts.ports_ready want
      then pure no_patches
      else if pins cg.facts.ethertype 0x0800
      then prologue_v4 want
      else if pins cg.facts.ethertype 0x86dd
      then prologue_v6 want
      else prologue_dual want

unfoldable pub emit_port_prereqs : Option Proto → M Patches
emit_port_prereqs pr = elim (l4set_for pr) [
  | some want ↦ emit_port_prereqs_set want
  | none ↦ throw (port_proto_unsupported pr)
]

unfoldable pub check_port : ℕ → ℕ → M (List Patch)
check_port k off = do push (ldh_ind off); i ← push (jeq_k k 0 0xff); pure (Patch.jf i ∷ [])

unfoldable pub check_port_dir : Dir → ℕ → ℕ → M Patches
check_port_dir src k base = do a ← check_port k base; pure (fails a)
check_port_dir dst k base = do b ← check_port k (base + 2); pure (fails b)
check_port_dir src_and_dst k base = do
  a ← check_port k base
  b ← check_port k (base + 2)
  pure (fails (a ++ b))
check_port_dir src_or_dst k base = do
  push (ldh_ind base)
  i_src ← push (jeq_k k 0xff 0)
  push (ldh_ind (base + 2))
  i_dst ← push (jeq_k k 0 0xff)
  pure (record { success = Patch.jt i_src ∷ []; failure = Patch.jf i_dst ∷ [] })

unfoldable pub emit_port : ℕ → Dir → Option Proto → M Patches
emit_port port dir pr = do
  p ← emit_port_prereqs pr
  cg ← get
  q ← check_port_dir dir port (net_offset cg)
  pure (followed_by p q)

-- The closure `check_range`.
unfoldable pub check_range : ℕ → ℕ → ℕ → M (List Patch)
check_range lo hi off = do
  push (ldh_ind off)
  i_lo ← push (jge_k lo 0 0xff)
  i_hi ← push (jgt_k hi 0xff 0)
  pure (Patch.jf i_lo ∷ Patch.jt i_hi ∷ [])

unfoldable pub emit_portrange : ℕ → ℕ → Dir → Option Proto → M Patches
emit_portrange lo hi dir pr = do
  p ← emit_port_prereqs pr
  cg ← get
  q ← by_dir dir (check_range lo hi (net_offset cg)) (check_range lo hi (net_offset cg + 2))
  pure (followed_by p q)
