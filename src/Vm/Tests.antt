-- ===== src/Vm/Tests.antt =====
-- pktbaffle/src/vm.rs: the unit tests of the interpreter, on the model.
use pktbaffle.Prelude.{List, [], ◌∷◌, ◌≡◌, refl, true, false, Bool, bit_or}
use pktbaffle.Bpf.{Insn, bpf_accept, bpf_ld, bpf_mem, bpf_st}
use pktbaffle.Bpf.Build.{ldh_abs, jeq_k, ret_k, ld_imm}
use pktbaffle.Vm.{
  Packet, run, inner, loop, turn, exec, ld_value, ldx_value, store, alu_value, taken, uses_x,
  sized_load, scratch_slots,
}

verdict_of : List Insn → Packet → Bool
unfolding run inner loop turn exec ld_value ldx_value store alu_value taken uses_x sized_load
verdict_of = run

abbrev frame : Packet
frame = 1 ∷ 2 ∷ 3 ∷ 4 ∷ 5 ∷ 6 ∷ 7 ∷ 8 ∷ 9 ∷ 10 ∷ 11 ∷ 12 ∷ 8 ∷ 0 ∷ []

accept_all : verdict_of (ret_k bpf_accept ∷ []) frame ≡ true
unfolding verdict_of ret_k
accept_all = refl

drop_all : verdict_of (ret_k 0 ∷ []) frame ≡ false
unfolding verdict_of ret_k
drop_all = refl

ethertype_check :
    verdict_of (ldh_abs 12 ∷ jeq_k 0x0800 0 1 ∷ ret_k bpf_accept ∷ ret_k 0 ∷ []) frame ≡ true
unfolding verdict_of ret_k ldh_abs jeq_k
ethertype_check = refl

out_of_bounds_drops : verdict_of (ldh_abs 1000 ∷ ret_k bpf_accept ∷ []) frame ≡ false
unfolding verdict_of ret_k ldh_abs
out_of_bounds_drops = refl

abbrev store_a : Insn
store_a = record { code = bpf_st; jt = 0; jf = 0; k = 0 }

abbrev load_slot : Insn
load_slot = record { code = bit_or bpf_ld bpf_mem; jt = 0; jf = 0; k = 0 }

scratch_memory :
    verdict_of
      (ld_imm 42 ∷ store_a ∷ ld_imm 0 ∷ load_slot ∷ jeq_k 42 0 1 ∷ ret_k bpf_accept ∷ ret_k 0 ∷ [])
      frame
    ≡ true
unfolding verdict_of ret_k ld_imm jeq_k
scratch_memory = refl

out_of_range_scratch_store_drops :
    verdict_of (ld_imm 1 ∷ record store_a { k = scratch_slots } ∷ ret_k bpf_accept ∷ []) frame
    ≡ false
unfolding verdict_of ret_k ld_imm
out_of_range_scratch_store_drops = refl
