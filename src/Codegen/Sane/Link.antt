-- ===== src/Codegen/Sane/Link.antt =====
-- pktbaffle/src/codegen.rs: the link-layer checks keep the invariant.
use pktbaffle.Prelude.{ℕ, Bool, true, ◌&&◌, ◌<◌, ◌^◌, ◌≡◌, refl, arith, ltb, Option, some, none}
use pktbaffle.Ast.{Dir, src_or_dst, src, dst, src_and_dst, MacAddr}
use pktbaffle.Codegen.State.{Codegen, ether_proto_offset}
use pktbaffle.Codegen.Sane.{
  Inv, Keeps, kept, failed, bind-Post, if-Post, option-Post, push-Post, ether_proto_offset-small,
}
use pktbaffle.Codegen.Sane.Build.{
  ldb_abs-IsGood, ldh_abs-IsGood, ldw_abs-IsGood, jeq_k_jf-IsGood, jeq_k_jt-IsGood,
  jset_k_jf-IsGood, and_k-IsGood, rsh_k-IsGood,
}
use pktbaffle.Codegen.Sane.Check.{emit_ethertype-Post}
use pktbaffle.Codegen.Sane.Addr.{both_sides-Post, either_side-Post}
use pktbaffle.Codegen.Link.{
  is_raw_ip, check_mac, check_mac_dir, emit_ether_host, emit_ether_multicast, unwrap_or,
  check_vlan_id, emit_vlan, check_label, check_mpls, emit_mpls, check_session, emit_pppoe_session,
}

abbrev pub fits_mac : MacAddr → Bool
fits_mac m =
    ltb m.b0 256 && ltb m.b1 256 && ltb m.b2 256 && ltb m.b3 256 && ltb m.b4 256 && ltb m.b5 256

check_mac-Post :
    {d : ℕ} (m : MacAddr) (off : ℕ) → fits_mac m ≡ true → off < 16 → Keeps d (check_mac m off)
unfolding check_mac
check_mac-Post m off h k cg v = bind-Post (push-Post v (ldw_abs-IsGood (omega arith))) (λ _ _ w0.
    bind-Post (push-Post w0 (jeq_k_jf-IsGood (ground arith))) (λ _ _ w1.
      bind-Post (push-Post w1 (ldh_abs-IsGood (omega arith)))
        (λ _ _ w2. bind-Post (push-Post w2 (jeq_k_jf-IsGood (ground arith))) (λ _ _ w3. kept w3))))

check_mac_dir-Post :
    {d : ℕ} (m : MacAddr) (dir : Dir) → fits_mac m ≡ true → Keeps d (check_mac_dir m dir)
unfolding check_mac_dir
check_mac_dir-Post m src h cg v =
    bind-Post (check_mac-Post m 6 h (omega arith) cg v) (λ _ _ z. kept z)
check_mac_dir-Post m dst h cg v =
    bind-Post (check_mac-Post m 0 h (omega arith) cg v) (λ _ _ z. kept z)
check_mac_dir-Post m src_and_dst h cg v =
    both_sides-Post (check_mac-Post m 0 h (omega arith)) (check_mac-Post m 6 h (omega arith)) cg v
check_mac_dir-Post m src_or_dst h cg v =
    either_side-Post (check_mac-Post m 0 h (omega arith)) (check_mac-Post m 6 h (omega arith)) cg v

pub emit_ether_host-Post :
    {d : ℕ} (m : MacAddr) (dir : Dir) → fits_mac m ≡ true → Keeps d (emit_ether_host m dir)
unfolding emit_ether_host
emit_ether_host-Post m dir h cg v =
    if-Post {cg = cg} (is_raw_ip cg.link) _ _ failed (check_mac_dir-Post m dir h cg v)

pub emit_ether_multicast-Post : {d : ℕ} → Keeps d emit_ether_multicast
unfolding emit_ether_multicast
emit_ether_multicast-Post cg v = if-Post {cg = cg} (is_raw_ip cg.link) _ _ failed (
    bind-Post (push-Post v (ldb_abs-IsGood (omega arith)))
      (λ _ _ w0. bind-Post (push-Post w0 (jset_k_jf-IsGood (omega arith))) (λ _ _ w1. kept w1)))

abbrev pub fits_option : ℕ → Option ℕ → Bool
fits_option bound none = true
fits_option bound (some n) = ltb n bound

unwrap_or-small :
    (o : Option ℕ) (e : ℕ)
    → ((x : ℕ) → o ≡ some x → x < 2 ^ 23)
    → e < 2 ^ 23
    → unwrap_or o e < 2 ^ 23
unwrap_or-small none e h k = k
unwrap_or-small (some x) e h k = h x refl

unwrapped-small :
    {d : ℕ} {cg : Codegen} (e : ℕ)
    → Inv d cg
    → e < 2 ^ 23
    → unwrap_or (ether_proto_offset cg) e < 2 ^ 23
unwrapped-small {cg = cg} e v h =
    unwrap_or-small (ether_proto_offset cg) e (ether_proto_offset-small v) h

check_vlan_id-Post :
    {d : ℕ} (id : Option ℕ) → fits_option (2 ^ 16) id ≡ true → Keeps d (check_vlan_id id)
unfolding check_vlan_id
check_vlan_id-Post none h cg v = kept v
check_vlan_id-Post (some vid) h cg v =
    bind-Post (push-Post v (ldh_abs-IsGood (omega (arith, unwrapped-small 14 v (omega arith)))))
      (λ _ _ w0.
        bind-Post (push-Post w0 (and_k-IsGood (omega arith)))
          (λ _ _ w1. bind-Post (push-Post w1 (jeq_k_jf-IsGood (ground arith))) (λ _ _ w2. kept w2)))

pub emit_vlan-Post :
    {d : ℕ} (id : Option ℕ) → fits_option (2 ^ 16) id ≡ true → Keeps d (emit_vlan id)
unfolding emit_vlan
emit_vlan-Post id h cg v =
    bind-Post (emit_ethertype-Post v (omega arith))
      (λ _ cg' w. bind-Post (check_vlan_id-Post id h cg' w) (λ _ _ z. kept z))

check_label-Post :
    {d : ℕ} (label : Option ℕ) (off : ℕ)
    → fits_option (2 ^ 32) label ≡ true
    → off < 2 ^ 23
    → Keeps d (check_label label off)
unfolding check_label
check_label-Post none off h k cg v = kept v
check_label-Post (some l) off h k cg v =
    bind-Post (push-Post v (ldw_abs-IsGood (omega arith))) (λ _ _ w0.
      bind-Post (push-Post w0 (rsh_k-IsGood (omega arith)))
        (λ _ _ w1. bind-Post (push-Post w1 (jeq_k_jf-IsGood (ground arith))) (λ _ _ w2. kept w2)))

check_mpls-Post :
    {d : ℕ} (label : Option ℕ) (off : ℕ)
    → fits_option (2 ^ 32) label ≡ true
    → off < 2 ^ 23
    → Keeps d (check_mpls label off)
unfolding check_mpls
check_mpls-Post label off h k cg v =
    bind-Post (push-Post v (ldh_abs-IsGood (omega arith))) (λ _ _ w.
      bind-Post (push-Post w (jeq_k_jt-IsGood (omega arith))) (λ _ _ x.
        bind-Post (push-Post x (jeq_k_jf-IsGood (omega arith)))
          (λ _ cg' y. bind-Post (check_label-Post label off h k cg' y) (λ _ _ z. kept z))))

pub emit_mpls-Post :
    {d : ℕ} (label : Option ℕ) → fits_option (2 ^ 32) label ≡ true → Keeps d (emit_mpls label)
unfolding emit_mpls
emit_mpls-Post label h cg v =
    option-Post (ether_proto_offset cg) _ _
      (λ off e. check_mpls-Post label off h (ether_proto_offset-small v off e) cg v) failed

check_session-Post :
    {d : ℕ} (id : Option ℕ) → fits_option (2 ^ 16) id ≡ true → Keeps d (check_session id)
unfolding check_session
check_session-Post none h cg v = kept v
check_session-Post (some id) h cg v =
    bind-Post (push-Post v (ldh_abs-IsGood (omega (arith, unwrapped-small 12 v (omega arith)))))
      (λ _ _ w0. bind-Post (push-Post w0 (jeq_k_jf-IsGood (ground arith))) (λ _ _ w1. kept w1))

pub emit_pppoe_session-Post :
    {d : ℕ} (id : Option ℕ) → fits_option (2 ^ 16) id ≡ true → Keeps d (emit_pppoe_session id)
unfolding emit_pppoe_session
emit_pppoe_session-Post id h cg v =
    bind-Post (emit_ethertype-Post v (omega arith))
      (λ _ cg' w. bind-Post (check_session-Post id h cg' w) (λ _ _ z. kept z))
