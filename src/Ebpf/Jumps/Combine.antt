-- ===== src/Ebpf/Jumps/Combine.antt =====
-- pktbaffle/src/ebpf_codegen.rs: the rules for the ways in which the checks of a primitive are combined.
use pktbaffle.Prelude.{ℕ, ◌≤◌, refl, arith, List, ◌++◌, length}
use pktbaffle.Ast.{Dir, src, dst, src_or_dst, src_and_dst}
use pktbaffle.Ebpf.Build.{ja}
use pktbaffle.Ebpf.State.{Patch, Patches, no_patches, fails, M, here, ◌>>=◌, pure}
use pktbaffle.Ebpf.Load.{extended, either_side, by_dir}
use pktbaffle.Ebpf.Jumps.{
  AllBelow, no_patch, before, AllBelow-mono, AllBelow-append, BothBelow, kept, Keeps, bind-Post,
  push-Post, resolve_all-Post,
}

pub fails-BothBelow : {n : ℕ} {ps : List Patch} → AllBelow n ps → BothBelow n (fails ps)
fails-BothBelow h = record { successes = no_patch; failures = h }

pub no_patches-BothBelow : {n : ℕ} → BothBelow n no_patches
no_patches-BothBelow = record { successes = no_patch; failures = no_patch }

pub extended-BothBelow :
    {m n : ℕ} {p q : Patches} → BothBelow m p → m ≤ n → BothBelow n q → BothBelow n (extended p q)
extended-BothBelow h l k = record {
  successes = AllBelow-append (AllBelow-mono l h.successes) k.successes;
  failures = AllBelow-append (AllBelow-mono l h.failures) k.failures;
}

pub append_later :
    {m n : ℕ} {ps qs : List Patch} → AllBelow m ps → m ≤ n → AllBelow n qs → AllBelow n (ps ++ qs)
append_later h l k = AllBelow-append (AllBelow-mono l h) k

-- `p.failure.extend(..)` of a finished check.
pub fails-Post :
    {m : M (List Patch)} → Keeps AllBelow m → Keeps BothBelow (m >>= λ ps. pure (fails ps))
fails-Post h cg v = bind-Post (h cg v) (λ _ _ w l b. kept w (omega arith) (fails-BothBelow b))

pub append-Post :
    {m k : M (List Patch)}
    → Keeps AllBelow m
    → Keeps AllBelow k
    → Keeps AllBelow (m >>= λ ps. k >>= λ qs. pure (ps ++ qs))
append-Post h j cg v =
    bind-Post (h cg v)
      (λ _ _ w l b. bind-Post (j _ w) (λ _ _ x m c. kept x (omega arith) (append_later b m c)))

pub append_fails-Post :
    {m k : M (List Patch)}
    → Keeps AllBelow m
    → Keeps AllBelow k
    → Keeps BothBelow (m >>= λ ps. k >>= λ qs. pure (fails (ps ++ qs)))
append_fails-Post h j cg v = bind-Post (h cg v) (λ _ _ w l b.
    bind-Post (j _ w) (λ _ _ x m c. kept x (omega arith) (fails-BothBelow (append_later b m c))))

pub extended-Post :
    {m : M Patches} {k : M Patches}
    → Keeps BothBelow m
    → Keeps BothBelow k
    → Keeps BothBelow (m >>= λ p. k >>= λ q. pure (extended p q))
extended-Post h j cg v =
    bind-Post (h cg v) (λ _ _ w l b.
      bind-Post (j _ w) (λ _ _ x m c. kept x (omega arith) (extended-BothBelow b m c)))

pub either_side-Post :
    {m k : M (List Patch)} → Keeps AllBelow m → Keeps AllBelow k → Keeps BothBelow (either_side m k)
unfolding either_side here ja
either_side-Post h j cg v = bind-Post (h cg v) (λ fails1 _ v1 l1 b.
    bind-Post (push-Post _ _ v1 refl) (λ _ cg2 v2 l2 c.
      bind-Post
        (resolve_all-Post cg2 fails1 (length cg2.insns) v2 (AllBelow-mono l2 b) (omega arith))
        (λ _ _ v3 l3 _. bind-Post (j _ v3) (λ _ _ v4 l4 d.
          kept v4 (omega arith)
            (record { successes = before (omega arith) no_patch; failures = d })))))

pub by_dir-Post :
    {s d : M (List Patch)} (dir : Dir)
    → Keeps AllBelow s
    → Keeps AllBelow d
    → Keeps BothBelow (by_dir dir s d)
unfolding by_dir
by_dir-Post src h k cg v = fails-Post h cg v
by_dir-Post dst h k cg v = fails-Post k cg v
by_dir-Post src_and_dst h k cg v = append_fails-Post h k cg v
by_dir-Post src_or_dst h k cg v = either_side-Post h k cg v
