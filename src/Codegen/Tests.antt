-- ===== src/Codegen/Tests.antt =====
-- pktbaffle/src/codegen.rs: filters compiled by the model.
use pktbaffle.Prelude.{◌<◌, ◌^◌, true, arith, List, [], ◌∷◌, ◌≡◌, refl, none, some}
use pktbaffle.Vm.{Packet, run}
use pktbaffle.Ast.Tree.{size}
use pktbaffle.Codegen.Sane.Guards.{fits, fits_primitive}
use pktbaffle.Codegen.Sane.Compile.{compile-run}
use pktbaffle.Codegen.Emit.{compile}
use pktbaffle.Bpf.{Insn, bpf_accept, bpf_drop}
use pktbaffle.Bpf.Build.{ldw_abs, rsh_k, ldh_abs, ldb_abs, jeq_k, ret_k, ldh_ind, ldx_msh, jset_k}
use pktbaffle.Ast.{vlan, mpls, Expr, tcp, proto, port, dst}
use pktbaffle.Codegen.Facts
use pktbaffle.Codegen.Facts.{LinkType, ethernet}
use pktbaffle.Codegen.Guards
use pktbaffle.Codegen.State.{
  Result, ok, err, Codegen, new, net_offset, ether_proto_offset, link_has_ether, writes_x, push,
  resolve_all, concat,
}
use pktbaffle.Codegen.Check
use pktbaffle.Codegen.Port
use pktbaffle.Codegen.Link
use pktbaffle.Codegen.Emit.{
  emit_primitive, hoist_ethertype, hoist_guards, emit_or_hoist, step_and_right, step_and_done,
  step_or_right, step_or_done, step_not_done, emit_loop, emit_turns, emit_expr, assemble,
}

assembled : Expr → Result (List Insn)
unfolding emit_primitive hoist_ethertype hoist_guards emit_or_hoist step_and_right step_and_done
    step_or_right step_or_done step_not_done emit_loop emit_turns emit_expr assemble new net_offset
    ether_proto_offset link_has_ether writes_x push resolve_all concat Facts.contains
    Facts.subset_of Facts.l4_eq Facts.join Facts.both Facts.both_sets Facts.join_ready
    Facts.meet_facts Guards.union Guards.intersect Guards.l4set_for Guards.proto_guards
    Guards.primitive_guards Guards.walk_guards Guards.walk_turns Guards.required_guards
    Check.check_halfword Check.check_byte Check.check_word Check.pins Check.record_fact
    Check.check_ethertype Check.emit_ethertype Check.ip4_guard Check.emit_ip4_l4 Check.emit_ip6_l4
    Check.emit_proto Check.emit_l4_set_check Port.check_proto Port.pinned_member Port.establish
    Port.fresh_v4 Port.fresh_v6 Port.narrow Port.established_fact Port.prologue_v4 Port.prologue_v6
    Port.prologue_dual Port.already_ready Port.emit_port_prereqs_set Port.emit_port_prereqs
    Port.check_port Port.check_port_dir Port.emit_port Link.check_vlan_id Link.emit_vlan
    Link.check_label Link.check_mpls Link.emit_mpls
assembled e = elim (assemble e (new ethernet)) [ ok (insns, _) ↦ ok insns | err x ↦ err x ]

tcp_filter :
    assembled (Expr.primitive (proto tcp))
    ≡ ok (
        ldh_abs 12
        ∷ jeq_k 0x0800 0 3
        ∷ ldb_abs 23
        ∷ jeq_k 6 0 1
        ∷ ret_k bpf_accept
        ∷ ret_k bpf_drop
        ∷ [])
unfolding assembled ldh_abs ldb_abs jeq_k ret_k
tcp_filter = refl

-- `tcp and dst port 80` is one chain: the port prologue finds the protocol pinned.
tcp_and_port :
    assembled (Expr.and (Expr.primitive (proto tcp)) (Expr.primitive (port 80 dst none)))
    ≡ ok (
        ldh_abs 12
        ∷ jeq_k 0x0800 0 8
        ∷ ldb_abs 23
        ∷ jeq_k 6 0 6
        ∷ ldh_abs 20
        ∷ jset_k 0x1fff 4 0
        ∷ ldx_msh 14
        ∷ ldh_ind 16
        ∷ jeq_k 80 0 1
        ∷ ret_k bpf_accept
        ∷ ret_k bpf_drop
        ∷ [])
unfolding assembled ldh_abs ldb_abs jeq_k ret_k jset_k ldx_msh ldh_ind
tcp_and_port = refl

-- `mpls 100`: the jump on 0x8847 leads to the accepting return, past the check of the label.
mpls_label :
    assembled (Expr.primitive (mpls (some 100)))
    ≡ ok (
        ldh_abs 12
        ∷ jeq_k 0x8847 4 0
        ∷ jeq_k 0x8848 0 4
        ∷ ldw_abs 14
        ∷ rsh_k 12
        ∷ jeq_k 100 0 1
        ∷ ret_k bpf_accept
        ∷ ret_k bpf_drop
        ∷ [])
unfolding assembled ldh_abs ldw_abs rsh_k jeq_k ret_k
mpls_label = refl

-- `vlan and vlan`: the second tag is not checked.
double_tag :
    assembled (Expr.and (Expr.primitive (vlan none)) (Expr.primitive (vlan none)))
    ≡ ok (ldh_abs 12 ∷ jeq_k 0x8100 0 1 ∷ ret_k bpf_accept ∷ ret_k bpf_drop ∷ [])
unfolding assembled ldh_abs jeq_k ret_k
double_tag = refl

abbrev pub web : Expr
web = Expr.and (Expr.primitive (proto tcp)) (Expr.primitive (port 80 dst none))

abbrev pub web_program : List Insn
web_program =
    ldh_abs 12
    ∷ jeq_k 0x0800 0 8
    ∷ ldb_abs 23
    ∷ jeq_k 6 0 6
    ∷ ldh_abs 20
    ∷ jset_k 0x1fff 4 0
    ∷ ldx_msh 14
    ∷ ldh_ind 16
    ∷ jeq_k 80 0 1
    ∷ ret_k bpf_accept
    ∷ ret_k bpf_drop
    ∷ []

abbrev pub web_state : Codegen
web_state = record {
  insns = web_program;
  link = ethernet;
  facts = record {
    ethertype = some 0x0800;
    ip4_proto = some 6;
    ip6_nh = none;
    ports_ready = some (Facts.one 6);
  };
  x_writes = 1;
  vlan_depth = 0;
}

pub web_assembled : assemble web (new ethernet) ≡ ok (web_program, web_state)
unfolding emit_primitive hoist_ethertype hoist_guards emit_or_hoist step_and_right step_and_done
    step_or_right step_or_done step_not_done emit_loop emit_turns emit_expr assemble new net_offset
    ether_proto_offset link_has_ether writes_x push resolve_all concat Facts.contains
    Facts.subset_of Facts.l4_eq Facts.join Facts.both Facts.both_sets Facts.join_ready
    Facts.meet_facts Guards.union Guards.intersect Guards.l4set_for Guards.proto_guards
    Guards.primitive_guards Guards.walk_guards Guards.walk_turns Guards.required_guards
    Check.check_halfword Check.check_byte Check.check_word Check.pins Check.record_fact
    Check.check_ethertype Check.emit_ethertype Check.ip4_guard Check.emit_ip4_l4 Check.emit_ip6_l4
    Check.emit_proto Check.emit_l4_set_check Port.check_proto Port.pinned_member Port.establish
    Port.fresh_v4 Port.fresh_v6 Port.narrow Port.established_fact Port.prologue_v4 Port.prologue_v6
    Port.prologue_dual Port.already_ready Port.emit_port_prereqs_set Port.emit_port_prereqs
    Port.check_port Port.check_port_dir Port.emit_port Link.check_vlan_id Link.emit_vlan
    Link.check_label Link.check_mpls Link.emit_mpls ldh_abs ldb_abs jeq_k ret_k jset_k ldx_msh
    ldh_ind
web_assembled = refl

web_fits : fits web ≡ true
unfolding fits fits_primitive
web_fits = refl

web_small : size web < 2 ^ 20
unfolding size
web_small = omega arith

compile-run_example :
    (q : List Insn) × (compile web ethernet ≡ ok (record { insns = q }))
    × ((pkt : Packet) → run q pkt ≡ run web_program pkt)
compile-run_example =
    compile-run web ethernet web_program web_state web_small web_fits (omega arith) web_assembled
