-- ===== src/Codegen/Examples.antt =====
-- pktbaffle/src/codegen.rs: the theorems at concrete filters.
use pktbaffle.Prelude.{[], ◌≡◌, ◌↔◌, some, none, ℕ, true, false, ◌&&◌, ◌||◌, refl}
use pktbaffle.Codegen.Facts.{one, tcp_or_udp, contains, subset_of, join, Facts, meet_facts}
use pktbaffle.Codegen.Meet.{subset_of_iff, subset_of-join, Fields, true_of, true_of-meet_facts}
use pktbaffle.Vm.{Regs}
use pktbaffle.Codegen.Access.{cmp_insn, cmp_x_insn}
use pktbaffle.Codegen.Compare.{passes, holds, passes-holds}
use pktbaffle.Ast.{lt, Expr, tcp, dst, proto, port, vlan}
use pktbaffle.Codegen.State.{◌>>=◌, pure}
use pktbaffle.Codegen.Guards.{required_guards}
use pktbaffle.Codegen.GuardWalk.{guards_of, required_guards_lem}
use pktbaffle.Codegen.Emit.{emit_expr}
use pktbaffle.Codegen.EmitWalk.{emit_rec, emit_expr_lem}

-- `(tcp and vlan) or not dst port 80`.
abbrev mixed : Expr
mixed =
    Expr.or (Expr.and (Expr.primitive (proto tcp)) (Expr.primitive (vlan none)))
      (Expr.not (Expr.primitive (port 80 dst none)))

required_guards_lem_example : required_guards mixed ≡ some (guards_of mixed)
required_guards_lem_example = required_guards_lem mixed

emit_expr_lem_example : emit_expr mixed ≡ (emit_rec mixed >>= λ d. pure d.0)
emit_expr_lem_example = emit_expr_lem mixed

subset_of_iff_example :
    (subset_of (one 6) tcp_or_udp ≡ true)
    ↔ ((p : ℕ) → contains (one 6) p ≡ true → contains tcp_or_udp p ≡ true)
subset_of_iff_example = subset_of_iff (one 6) tcp_or_udp

subset_of-join_example :
    elim (join (one 6) (one 17)) [ some c ↦ subset_of c tcp_or_udp | none ↦ false ]
    ≡ (subset_of (one 6) tcp_or_udp && subset_of (one 17) tcp_or_udp)
subset_of-join_example = subset_of-join (one 6) (one 17) tcp_or_udp

abbrev tcp_facts : Facts
tcp_facts = record {
  ethertype = some 0x0800;
  ip4_proto = some 6;
  ip6_nh = none;
  ports_ready = some (one 6);
}

abbrev udp_facts : Facts
udp_facts = record {
  ethertype = some 0x0800;
  ip4_proto = some 17;
  ip6_nh = none;
  ports_ready = some (one 17);
}

abbrev udp_packet : Fields
udp_packet = record { ethertype = 0x0800; ip4_proto = 17; ip6_nh = 0; l4 = 17 }

udp_facts_hold : (true_of tcp_facts udp_packet || true_of udp_facts udp_packet) ≡ true
unfolding true_of contains
udp_facts_hold = refl

true_of-meet_facts_example : true_of (meet_facts tcp_facts udp_facts) udp_packet ≡ true
true_of-meet_facts_example = true_of-meet_facts tcp_facts udp_facts udp_packet udp_facts_hold

abbrev regs : Regs
regs = record { a = 80; x = 1500; scratch = [] }

passes-holds_example :
    (passes (cmp_insn lt 1024) regs ≡ some (holds lt regs.a 1024))
    × (passes (cmp_x_insn lt) regs ≡ some (holds lt regs.x regs.a))
passes-holds_example = passes-holds lt 1024 regs
