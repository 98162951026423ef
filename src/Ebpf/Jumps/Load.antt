-- ===== src/Ebpf/Jumps/Load.antt =====
-- pktbaffle/src/ebpf_codegen.rs: the bounds-checked loads and the checks of a field keep the invariant.
use pktbaffle.Prelude.{ℕ, refl, arith, ◌==◌}
use pktbaffle.Codegen.Facts.{link_ether_proto_offset}
use pktbaffle.Ebpf.{insn}
use pktbaffle.Ebpf.Build.{ldx_w, ldx_h, ldx_b, be16, be32, mov64_reg, add64_imm, jgt_reg, jne_imm}
use pktbaffle.Ebpf.State.{Patch, M}
use pktbaffle.Ebpf.Load.{
  emit_prologue, push_ldx_h_be, push_ldx_w_be, bounds_check, emit_load_byte, emit_load_half,
  emit_load_word, then_expect, check_half, check_byte, check_word, emit_ethertype, ip4_guard,
  emit_ip4_l4, emit_ip6_l4,
}
use pktbaffle.Ebpf.Jumps.{
  AllBelow, no_patch, before, NatIn, PatchIn, Any, BothBelow, kept, failed, Keeps, bind-Post,
  if-Post, option-Post, push-Post,
}
use pktbaffle.Ebpf.Jumps.Combine.{no_patches-BothBelow, fails-Post, extended-Post}

pub emit_prologue-Post : Keeps Any emit_prologue
unfolding emit_prologue ldx_w insn
emit_prologue-Post cg v = bind-Post (push-Post _ _ v refl) (λ _ _ v1 l1 _.
    bind-Post (push-Post _ _ v1 refl) (λ _ _ v2 l2 _. kept v2 (omega arith) (omega arith)))

pub push_ldx_h_be-Post : (d s off : ℕ) → Keeps Any (push_ldx_h_be d s off)
unfolding push_ldx_h_be ldx_h be16 insn
push_ldx_h_be-Post d s off cg v = bind-Post (push-Post _ _ v refl) (λ _ _ v1 l1 _.
    bind-Post (push-Post _ _ v1 refl) (λ _ _ v2 l2 _. kept v2 (omega arith) (omega arith)))

pub push_ldx_w_be-Post : (d s off : ℕ) → Keeps Any (push_ldx_w_be d s off)
unfolding push_ldx_w_be ldx_w be32 insn
push_ldx_w_be-Post d s off cg v = bind-Post (push-Post _ _ v refl) (λ _ _ v1 l1 _.
    bind-Post (push-Post _ _ v1 refl) (λ _ _ v2 l2 _. kept v2 (omega arith) (omega arith)))

bounds_check-Post : (off size : ℕ) → Keeps NatIn (bounds_check off size)
unfolding bounds_check mov64_reg add64_imm jgt_reg insn
bounds_check-Post off size cg v =
    bind-Post (push-Post _ _ v refl)
      (λ _ _ v1 _ _. bind-Post (push-Post _ _ v1 refl) (λ _ _ v2 _ _. push-Post _ _ v2 refl))

pub emit_load_byte-Post : (off : ℕ) → Keeps PatchIn (emit_load_byte off)
unfolding emit_load_byte ldx_b insn
emit_load_byte-Post off cg v = bind-Post (bounds_check-Post off 1 cg v) (λ _ _ v1 l1 b.
    bind-Post (push-Post _ _ v1 refl) (λ _ _ v2 l2 _. kept v2 (omega arith) (omega arith)))

pub emit_load_half-Post : (off : ℕ) → Keeps PatchIn (emit_load_half off)
unfolding emit_load_half
emit_load_half-Post off cg v = bind-Post (bounds_check-Post off 2 cg v) (λ _ _ v1 l1 b.
    bind-Post (push_ldx_h_be-Post _ _ _ _ v1) (λ _ _ v2 l2 _. kept v2 (omega arith) (omega arith)))

pub emit_load_word-Post : (off : ℕ) → Keeps PatchIn (emit_load_word off)
unfolding emit_load_word
emit_load_word-Post off cg v = bind-Post (bounds_check-Post off 4 cg v) (λ _ _ v1 l1 b.
    bind-Post (push_ldx_w_be-Post _ _ _ _ v1) (λ _ _ v2 l2 _. kept v2 (omega arith) (omega arith)))

pub then_expect-Post :
    (load : M Patch) (k : ℕ) → Keeps PatchIn load → Keeps AllBelow (then_expect load k)
unfolding then_expect jne_imm insn
then_expect-Post load k h cg v = bind-Post (h cg v) (λ _ _ v1 l1 b.
    bind-Post (push-Post _ _ v1 refl)
      (λ _ _ v2 l2 c. kept v2 (omega arith) (before (omega arith) (before (omega arith) no_patch))))

pub check_half-Post : (off k : ℕ) → Keeps BothBelow (check_half off k)
unfolding check_half
check_half-Post off k = fails-Post (then_expect-Post _ k (emit_load_half-Post off))

pub check_byte-Post : (off k : ℕ) → Keeps BothBelow (check_byte off k)
unfolding check_byte
check_byte-Post off k = fails-Post (then_expect-Post _ k (emit_load_byte-Post off))

pub check_word-Post : (off k : ℕ) → Keeps BothBelow (check_word off k)
unfolding check_word
check_word-Post off k = fails-Post (then_expect-Post _ k (emit_load_word-Post off))

pub emit_ethertype-Post : (et : ℕ) → Keeps BothBelow (emit_ethertype et)
unfolding emit_ethertype
emit_ethertype-Post et cg v =
    option-Post {cg = cg} (link_ether_proto_offset cg.link) _ _ (λ off. check_half-Post off et cg v)
      (if-Post {cg = cg} (et == 0x0800) _ _ (kept v (omega arith) no_patches-BothBelow)
        (failed refl))

pub ip4_guard-Post : Keeps BothBelow ip4_guard
unfolding ip4_guard
ip4_guard-Post = emit_ethertype-Post 0x0800

pub emit_ip4_l4-Post : (n : ℕ) → Keeps BothBelow (emit_ip4_l4 n)
unfolding emit_ip4_l4
emit_ip4_l4-Post n = extended-Post ip4_guard-Post (λ cg. check_byte-Post _ n cg)

pub emit_ip6_l4-Post : (n : ℕ) → Keeps BothBelow (emit_ip6_l4 n)
unfolding emit_ip6_l4
emit_ip6_l4-Post n = extended-Post (emit_ethertype-Post 0x86dd) (λ cg. check_byte-Post _ n cg)
