-- ===== src/Codegen/Sane/Port.antt =====
-- pktbaffle/src/codegen.rs: the port prologues and the port checks keep the invariant.
use pktbaffle.Prelude.{ℕ, ◌<◌, ◌^◌, ◌≡◌, refl, ◌+◌, arith, Option, some, none, length}
use pktbaffle.Ast.{Dir, src_or_dst, src, dst, src_and_dst, Proto, tcp, udp, sctp}
use pktbaffle.Codegen.Facts.{L4Set, one, tcp_or_udp}
use pktbaffle.Codegen.Guards.{l4set_for}
use pktbaffle.Codegen.State.{
  Patch, Patches, Codegen, Result, ok, err, M, pure, throw, panicked, net_offset,
  ether_proto_offset,
}
use pktbaffle.Codegen.Check.{pins}
use pktbaffle.Codegen.Sane.{
  Post, Keeps, kept, failed, bind-Post, if-Post, option-Post, push-Post, resolve-Post,
  net_offset-small, ether_proto_offset-small, with_facts,
}
use pktbaffle.Codegen.Sane.Build.{
  ldb_abs-IsGood, ldh_abs-IsGood, ldh_ind-IsGood, ldx_msh-IsGood, ldx_imm-IsGood, jeq_k_jf-IsGood,
  jeq_k_jt-IsGood, jset_k_jt-IsGood, jge_k_jf-IsGood, jgt_k_jt-IsGood, ja-IsGood,
}
use pktbaffle.Codegen.Sane.Check.{SetFits, emit_l4_set_check-Post}
use pktbaffle.Codegen.Sane.Addr.{by_dir-Post}
use pktbaffle.Codegen.Port.{
  check_proto, pinned_member, establish, fresh_v4, fresh_v6, narrow, is_some, prologue_v4,
  prologue_v6, prologue_dual, already_ready, emit_port_prereqs_set, emit_port_prereqs, check_port,
  check_port_dir, emit_port, check_range, emit_portrange,
}

check_proto-Post :
    {d : ℕ} (want : L4Set) (off : ℕ) → SetFits want → off < 2 ^ 32 → Keeps d (check_proto want off)
unfolding check_proto
check_proto-Post want off h k cg v =
    bind-Post (push-Post v (ldb_abs-IsGood k)) (λ _ _ w. emit_l4_set_check-Post want w h)

establish-Post :
    {d : ℕ} (want : L4Set) (pinned : Option ℕ) (off : ℕ)
    → SetFits want
    → off < 2 ^ 32
    → Keeps d (establish want pinned off)
unfolding establish
establish-Post want pinned off h k cg v =
    option-Post (pinned_member want pinned) _ _ (λ _ _. kept v)
      (bind-Post (check_proto-Post want off h k cg v) (λ _ _ w. kept w))

fresh_v4-Post : {d : ℕ} (want : L4Set) → SetFits want → Keeps d (fresh_v4 want)
unfolding fresh_v4
fresh_v4-Post want h cg v =
    let s = net_offset-small v in
    bind-Post (establish-Post want cg.facts.ip4_proto (net_offset cg + 9) h (omega (arith, s)) cg v)
      (λ _ _ w. bind-Post (push-Post w (ldh_abs-IsGood (omega (arith, s)))) (λ _ _ w0.
        bind-Post (push-Post w0 (jset_k_jt-IsGood (omega arith))) (λ _ _ w1.
          bind-Post (push-Post w1 (ldx_msh-IsGood (omega (arith, s)))) (λ _ _ w2. kept w2))))

fresh_v6-Post : {d : ℕ} (want : L4Set) → SetFits want → Keeps d (fresh_v6 want)
unfolding fresh_v6
fresh_v6-Post want h cg v =
    let s = net_offset-small v in
    bind-Post (establish-Post want cg.facts.ip6_nh (net_offset cg + 6) h (omega (arith, s)) cg v)
      (λ _ _ w. bind-Post (push-Post w (ldx_imm-IsGood (omega arith))) (λ _ _ x. kept x))

narrow-Post :
    {d : ℕ} (want : L4Set) (off : ℕ) → SetFits want → off < 2 ^ 32 → Keeps d (narrow want off)
unfolding narrow
narrow-Post want off h k cg v = bind-Post (check_proto-Post want off h k cg v) (λ _ _ w. kept w)

prologue_v4-Post : {d : ℕ} (want : L4Set) → SetFits want → Keeps d (prologue_v4 want)
unfolding prologue_v4
prologue_v4-Post want h cg v =
    bind-Post
      (if-Post {cg = cg} (is_some cg.facts.ports_ready) _ _
        (narrow-Post want (net_offset cg + 9) h (omega (arith, net_offset-small v)) cg v)
        (fresh_v4-Post want h cg v))
      (λ _ _ w. kept (with_facts w))

prologue_v6-Post : {d : ℕ} (want : L4Set) → SetFits want → Keeps d (prologue_v6 want)
unfolding prologue_v6
prologue_v6-Post want h cg v =
    bind-Post
      (if-Post {cg = cg} (is_some cg.facts.ports_ready) _ _
        (narrow-Post want (net_offset cg + 6) h (omega (arith, net_offset-small v)) cg v)
        (fresh_v6-Post want h cg v))
      (λ _ _ w. kept (with_facts w))

expected-Post :
    {d : ℕ} {cg : Codegen} (o : Option ℕ) (f : ℕ → Codegen → Result (Patches × Codegen))
    → ((x : ℕ) → o ≡ some x → Post d (f x cg))
    → Post d (elim (elim o as (λ _. M ℕ) [ some x ↦ pure x | none ↦ throw panicked ] cg) [
      | ok (x, s) ↦ f x s
      | err e ↦ err e
    ])
expected-Post (some x) f p = p x refl
expected-Post none f p = failed

prologue_dual-Post : {d : ℕ} (want : L4Set) → SetFits want → Keeps d (prologue_dual want)
unfolding prologue_dual
prologue_dual-Post want h cg v =
    let s = net_offset-small v in
    expected-Post (ether_proto_offset cg) _ (λ off e.
      bind-Post (push-Post v (ldh_abs-IsGood (omega (arith, ether_proto_offset-small v off e))))
        (λ _ _ w1. bind-Post (push-Post w1 (jeq_k_jt-IsGood (omega arith))) (λ i_is_ip6 _ w2.
          bind-Post (push-Post w2 (jeq_k_jf-IsGood (omega arith))) (λ _ c3 w3.
            bind-Post (check_proto-Post want (net_offset cg + 9) h (omega (arith, s)) c3 w3)
              (λ _ _ w4. bind-Post (push-Post w4 (ldh_abs-IsGood (omega (arith, s)))) (λ _ _ w5.
                bind-Post (push-Post w5 (jset_k_jt-IsGood (omega arith))) (λ _ _ w6.
                  bind-Post (push-Post w6 (ldx_msh-IsGood (omega (arith, s)))) (λ _ _ w7.
                    bind-Post (push-Post w7 ja-IsGood) (λ ja_skip c8 w8.
                      bind-Post (resolve-Post (Patch.jt i_is_ip6) (length c8.insns) w8) (λ _ c9 w9.
                        bind-Post
                          (check_proto-Post want (net_offset cg + 6) h (omega (arith, s)) c9 w9)
                          (λ _ _ w10.
                            bind-Post (push-Post w10 (ldx_imm-IsGood (omega arith))) (λ _ c11 w11.
                              bind-Post (resolve-Post (Patch.ja ja_skip) (length c11.insns) w11)
                                (λ _ _ w12. kept (with_facts w12))))))))))))))

pub emit_port_prereqs_set-Post :
    {d : ℕ} (want : L4Set) → SetFits want → Keeps d (emit_port_prereqs_set want)
unfolding emit_port_prereqs_set
emit_port_prereqs_set-Post want h cg v =
    if-Post {cg = cg} (already_ready cg.facts.ports_ready want) _ _ (kept v) (
      if-Post {cg = cg} (pins cg.facts.ethertype 0x0800) _ _ (prologue_v4-Post want h cg v) (
        if-Post {cg = cg} (pins cg.facts.ethertype 0x86dd) _ _ (prologue_v6-Post want h cg v)
          (prologue_dual-Post want h cg v)))

pub l4set_for-SetFits : (pr : Option Proto) (want : L4Set) → l4set_for pr ≡ some want → SetFits want
unfolding l4set_for
l4set_for-SetFits none (one n) e = absurd (ground arith)
l4set_for-SetFits (some tcp) (one n) e = ground arith
l4set_for-SetFits (some udp) (one n) e = ground arith
l4set_for-SetFits (some sctp) (one n) e = ground arith
l4set_for-SetFits _ (one n) e = absurd (ground arith)
l4set_for-SetFits _ tcp_or_udp e = tt

emit_port_prereqs-Post : {d : ℕ} (pr : Option Proto) → Keeps d (emit_port_prereqs pr)
unfolding emit_port_prereqs
emit_port_prereqs-Post pr cg v =
    option-Post (l4set_for pr) _ _
      (λ want e. emit_port_prereqs_set-Post want (l4set_for-SetFits pr want e) cg v) failed

check_port-Post : {d : ℕ} (k off : ℕ) → k < 2 ^ 16 → off < 2 ^ 32 → Keeps d (check_port k off)
unfolding check_port
check_port-Post k off h l cg v =
    bind-Post (push-Post v (ldh_ind-IsGood l))
      (λ _ _ w0. bind-Post (push-Post w0 (jeq_k_jf-IsGood (omega arith))) (λ _ _ w1. kept w1))

check_port_dir-Post :
    {d : ℕ} (dir : Dir) (k base : ℕ)
    → k < 2 ^ 16
    → base + 2 < 2 ^ 32
    → Keeps d (check_port_dir dir k base)
unfolding check_port_dir
check_port_dir-Post src k base h l cg v =
    bind-Post (check_port-Post k base h (omega arith) cg v) (λ _ _ z. kept z)
check_port_dir-Post dst k base h l cg v =
    bind-Post (check_port-Post k (base + 2) h l cg v) (λ _ _ z. kept z)
check_port_dir-Post src_and_dst k base h l cg v =
    bind-Post (check_port-Post k base h (omega arith) cg v)
      (λ _ cg' w. bind-Post (check_port-Post k (base + 2) h l cg' w) (λ _ _ z. kept z))
check_port_dir-Post src_or_dst k base h l cg v =
    bind-Post (push-Post v (ldh_ind-IsGood (omega arith))) (λ _ _ w0.
      bind-Post (push-Post w0 (jeq_k_jt-IsGood (omega arith))) (λ _ _ w1.
        bind-Post (push-Post w1 (ldh_ind-IsGood l))
          (λ _ _ w2. bind-Post (push-Post w2 (jeq_k_jf-IsGood (omega arith))) (λ _ _ w3. kept w3))))

pub emit_port-Post :
    {d : ℕ} (k : ℕ) (dir : Dir) (pr : Option Proto) → k < 2 ^ 16 → Keeps d (emit_port k dir pr)
unfolding emit_port
emit_port-Post k dir pr h cg v = bind-Post (emit_port_prereqs-Post pr cg v) (λ _ cg' w.
    bind-Post
      (check_port_dir-Post dir k (net_offset cg') h (omega (arith, net_offset-small w)) cg' w)
      (λ _ _ z. kept z))

check_range-Post :
    {d : ℕ} (lo hi off : ℕ)
    → lo < 2 ^ 16
    → hi < 2 ^ 16
    → off < 2 ^ 32
    → Keeps d (check_range lo hi off)
unfolding check_range
check_range-Post lo hi off h k l cg v = bind-Post (push-Post v (ldh_ind-IsGood l)) (λ _ _ w0.
    bind-Post (push-Post w0 (jge_k_jf-IsGood (omega arith)))
      (λ _ _ w1. bind-Post (push-Post w1 (jgt_k_jt-IsGood (omega arith))) (λ _ _ w2. kept w2)))

pub emit_portrange-Post :
    {d : ℕ} (lo hi : ℕ) (dir : Dir) (pr : Option Proto)
    → lo < 2 ^ 16
    → hi < 2 ^ 16
    → Keeps d (emit_portrange lo hi dir pr)
unfolding emit_portrange
emit_portrange-Post lo hi dir pr h k cg v = bind-Post (emit_port_prereqs-Post pr cg v) (λ _ cg' w.
    let s = net_offset-small w in
    bind-Post
      (by_dir-Post dir (check_range-Post lo hi (net_offset cg') h k (omega (arith, s)))
        (check_range-Post lo hi (net_offset cg' + 2) h k (omega (arith, s))) cg' w)
      (λ _ _ z. kept z))
