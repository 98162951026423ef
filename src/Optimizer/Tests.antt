-- ===== src/Optimizer/Tests.antt =====
-- pktbaffle/src/optimizer.rs: unit tests of the passes, and the theorems at a program.
use pktbaffle.Prelude.{List, [], ◌∷◌, ◌≡◌, ◌≤◌, refl, some, Option, Bool, length, ℕ, get_elem?}
use pktbaffle.Bpf.{Insn, bpf_accept, bpf_drop}
use pktbaffle.Bpf.Build.{ldh_abs, ldb_abs, jeq_k, ja, ret_k}
use pktbaffle.Vm.{Packet, run, inner, finished}
use pktbaffle.Vm.Runs.{inner_total}
use pktbaffle.Optimizer.{
  optimize, thread_jumps, thread_from, thread_insn, final_targets, final_target, narrow_u8, is_ja,
  is_cond_jump, is_ld_abs, is_ret, writes_a, reachable_marks, reach_loop, successors,
  redundant_load_marks, sweep, initial_slots, propagate, transfer, is_redundant, meet_at, meet,
  state_eq, keep_marks, remove_unkept, compact, retarget, new_offset, new_index, all_kept,
}
use pktbaffle.Optimizer.Sane.{IsSane, sane, sane-IsSane}
use pktbaffle.Optimizer.Sound.{optimize-run}
use pktbaffle.Optimizer.ThreadSound.{run-thread_jumps}
use pktbaffle.Optimizer.ReachTotal.{reachable_marks_total}
use pktbaffle.Optimizer.Chains.{Threaded, thread_jumps-Threaded}
use pktbaffle.Optimizer.Deduped.{Repeats, dedup_loads-run}
use pktbaffle.Optimizer.Dedup.{
  dedup_loads, dedup_from, same_load, remove_at, adjust_jumps, adjust_from, adjust_insn,
  adjust_field,
}

-- A chain of two `ja`s between a test and the verdict.
abbrev chain : List Insn
chain = ldh_abs 12 ∷ jeq_k 0x0800 0 3 ∷ ja 0 ∷ ja 0 ∷ ret_k bpf_accept ∷ ret_k bpf_drop ∷ []

optimized : List Insn → Option (List Insn)
unfolding optimize thread_jumps thread_from thread_insn final_targets final_target narrow_u8 is_ja
    is_cond_jump is_ld_abs is_ret writes_a reachable_marks reach_loop successors
    redundant_load_marks sweep initial_slots propagate transfer is_redundant meet_at meet state_eq
    keep_marks remove_unkept compact retarget new_offset new_index all_kept
optimized = optimize

deduplicated : List Insn → Option (List Insn)
unfolding dedup_loads dedup_from same_load remove_at adjust_jumps adjust_from adjust_insn
    adjust_field is_ld_abs
deduplicated = dedup_loads

chain-optimized :
    optimized chain ≡ some (ldh_abs 12 ∷ jeq_k 0x0800 0 1 ∷ ret_k bpf_accept ∷ ret_k bpf_drop ∷ [])
unfolding optimized ldh_abs jeq_k ja ret_k
chain-optimized = refl

-- The reload is reached only by the jf edge of the first test, which still holds A = ldb[23].
join_agreeing :
    optimized (
      ldb_abs 23 ∷ jeq_k 6 2 0 ∷ ldb_abs 23 ∷ jeq_k 17 0 1 ∷ ret_k bpf_accept ∷ ret_k bpf_drop ∷ [])
    ≡ some (ldb_abs 23 ∷ jeq_k 6 1 0 ∷ jeq_k 17 0 1 ∷ ret_k bpf_accept ∷ ret_k bpf_drop ∷ [])
unfolding optimized ldb_abs jeq_k ret_k
join_agreeing = refl

-- Two paths with different loads meet at the reload, which stays.
join_conflicting :
    let p : List Insn =
      ldh_abs 12
      ∷ jeq_k 0x0800 0 1
      ∷ ldb_abs 23
      ∷ ldh_abs 12
      ∷ jeq_k 0x86dd 0 1
      ∷ ret_k bpf_accept
      ∷ ret_k bpf_drop
      ∷ [] in
    optimized p ≡ some p
unfolding optimized ldh_abs ldb_abs jeq_k ret_k
join_conflicting = refl

dedup_adjacent :
    deduplicated (jeq_k 1 0 3 ∷ ldh_abs 0 ∷ ldh_abs 0 ∷ ret_k bpf_accept ∷ ret_k bpf_drop ∷ [])
    ≡ some (jeq_k 1 0 2 ∷ ldh_abs 0 ∷ ret_k bpf_accept ∷ ret_k bpf_drop ∷ [])
unfolding deduplicated jeq_k ldh_abs ret_k
dedup_adjacent = refl

chain-IsSane : IsSane chain
unfolding sane is_ja ldh_abs jeq_k ja ret_k
chain-IsSane = sane-IsSane chain refl

-- An IPv4 packet, cut after the ethertype.
abbrev frame : Packet
frame = 1 ∷ 2 ∷ 3 ∷ 4 ∷ 5 ∷ 6 ∷ 7 ∷ 8 ∷ 9 ∷ 10 ∷ 11 ∷ 12 ∷ 8 ∷ 0 ∷ []

optimize-run_example :
    (q : List Insn) × (optimize chain ≡ some q) × ((pkt : Packet) → run q pkt ≡ run chain pkt)
optimize-run_example = optimize-run chain chain-IsSane

run-thread_jumps_example : run (thread_jumps chain) frame ≡ run chain frame
run-thread_jumps_example = run-thread_jumps chain frame chain-IsSane

inner_total_example : (r : Option Bool) × (inner chain frame ≡ finished r)
inner_total_example = inner_total chain frame chain-IsSane.fits

reachable_marks_total_example : (res : List Bool) × (reachable_marks chain ≡ some res)
reachable_marks_total_example = reachable_marks_total chain

abbrev repeated : List Insn
repeated = jeq_k 1 2 0 ∷ ldh_abs 0 ∷ ldh_abs 0 ∷ ldh_abs 0 ∷ ret_k bpf_accept ∷ []

repeated-IsSane : IsSane repeated
unfolding sane is_ja jeq_k ldh_abs ret_k
repeated-IsSane = sane-IsSane repeated refl

dedup_loads-run_example :
    (q : List Insn) × (dedup_loads repeated ≡ some q)
    × ((pkt : Packet) → run q pkt ≡ run repeated pkt)
    × (length q ≤ length repeated)
    × ((j : ℕ) → ¬ (Repeats q j))
dedup_loads-run_example = dedup_loads-run repeated repeated-IsSane.fits

thread_jumps-Threaded_example :
    (length (thread_jumps chain) ≡ length chain)
    × ((j : ℕ) (x : Insn)
        → get_elem? chain j ≡ some x
        → (y : Insn) × (get_elem? (thread_jumps chain) j ≡ some y) × Threaded chain j x y)
thread_jumps-Threaded_example = thread_jumps-Threaded chain chain-IsSane
