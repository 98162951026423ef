-- ===== src/Optimizer.antt =====
-- pktbaffle/src/optimizer.rs: the peephole passes over a patched program.
-- An index that the source adds to or subtracts from is a plain number; the subtractions of the
-- source never go below 0 (`Optimizer.Thread` and `Optimizer.Remove` have the orders). A cast to
-- `u32` or `u8` is `%`. The arrays that the source walks are lists: a suffix of the program comes
-- with the index of its head, or with the suffix of the slots that belong to it.
pub mod Decode
pub mod Sane
pub mod Thread
pub mod ThreadRuns
pub mod ThreadSound
pub mod Flow
pub mod Reach
pub mod ReachTotal
pub mod Remove
pub mod Live
pub mod Retarget
pub mod KeptTurn
pub mod Sound
pub mod Dedup
pub mod Chains
pub mod Adjust
pub mod DedupRuns
pub mod Deduped
mod Tests
use pktbaffle.Prelude.{
  ℕ, zero, suc, ◌+◌, ◌-◌, ◌*◌, ◌%◌, ◌^◌, min, bit_and, List, [], ◌∷◌, Bool, true, false, not, ◌&&◌,
  ◌||◌, Option, none, some, ltb, leb, ◌==◌, if◌then◌else◌, length, get_elem?, get_or, set,
  replicate,
}
use pktbaffle.Bpf.{Insn, bpf_ld, bpf_alu, bpf_jmp, bpf_ret, bpf_misc, bpf_abs, bpf_ja, bpf_txa}

unfoldable pub is_ja : Insn → Bool
is_ja i = bit_and i.code 0x07 == bpf_jmp && bit_and i.code 0xf0 == bpf_ja

unfoldable pub is_cond_jump : Insn → Bool
is_cond_jump i = bit_and i.code 0x07 == bpf_jmp && not (bit_and i.code 0xf0 == bpf_ja)

unfoldable pub is_ld_abs : Insn → Bool
is_ld_abs i = bit_and i.code 0xe7 == bpf_abs

unfoldable pub is_ret : Insn → Bool
is_ret i = bit_and i.code 0x07 == bpf_ret

unfoldable pub writes_a : Insn → Bool
writes_a i =
    let class = bit_and i.code 0x07 in
    class == bpf_ld || class == bpf_alu || class == bpf_misc && bit_and i.code 0xf8 == bpf_txa

-- Pass 1, jump threading.
-- `fin`, filled back to front: the slots of the suffix that begins at index `i`. The slot of the
-- target `i + 1 + k` is slot `k` of those that are already filled; past the end it is the target.
unfoldable pub final_targets : ℕ → List Insn → List ℕ
final_targets i [] = []
final_targets i (x ∷ xs) =
    let fin = final_targets (i + 1) xs in
    (if is_ja x then get_or fin x.k (i + 1 + x.k) else i) ∷ fin

-- The closure `final_target`.
unfoldable pub final_target : List ℕ → ℕ → ℕ
final_target fin t = get_or fin t t

-- `if let Ok(off) = u8::try_from(target - i - 1) { field = off }`.
unfoldable pub narrow_u8 : ℕ → ℕ → ℕ
narrow_u8 off field = if ltb off 256 then off else field

-- The body of the second loop, for the instruction at index `i`.
unfoldable pub thread_insn : List ℕ → ℕ → Insn → Insn
thread_insn fin i x =
    if is_ja x
    then record x { k = (final_target fin (i + 1 + x.k) - i - 1) % 2 ^ 32 }
    else if is_cond_jump x
    then record x {
      jt = narrow_u8 (final_target fin (i + 1 + x.jt) - i - 1) x.jt;
      jf = narrow_u8 (final_target fin (i + 1 + x.jf) - i - 1) x.jf;
    }
    else x

unfoldable pub thread_from : List ℕ → ℕ → List Insn → List Insn
thread_from fin i [] = []
thread_from fin i (x ∷ xs) = thread_insn fin i x ∷ thread_from fin (i + 1) xs

unfoldable pub thread_jumps : List Insn → List Insn
thread_jumps insns = thread_from (final_targets 0 insns) 0 insns

-- Pass 2, redundant loads.
pub data AState : Type 0 where
  unknown : AState
  load : ℕ → ℕ → AState

unfoldable pub state_eq : AState → AState → Bool
state_eq unknown unknown = true
state_eq (load c k) (load c' k') = c == c' && k == k'
state_eq _ _ = false

unfoldable pub meet : Option AState → AState → Option AState
meet none incoming = some incoming
meet (some prev) incoming = some (if state_eq prev incoming then incoming else unknown)

-- `if t < insns.len() { meet(&mut in_state[t], out) }`, by the distance from the next instruction.
unfoldable pub meet_at : ℕ → AState → List (Option AState) → List (Option AState)
meet_at d out [] = []
meet_at zero out (slot ∷ slots) = meet slot out ∷ slots
meet_at (suc d) out (slot ∷ slots) = slot ∷ meet_at d out slots

-- What the accumulator is known to hold after `x`.
unfoldable pub transfer : Insn → AState → AState
transfer x state = if is_ld_abs x then load x.code x.k else if writes_a x then unknown else state

-- The edges out of `x`, met into the slots of the instructions after it.
unfoldable pub propagate : Insn → AState → List (Option AState) → List (Option AState)
propagate x out slots =
    if is_ret x
    then slots
    else if is_ja x
    then meet_at x.k out slots
    else if is_cond_jump x
    then meet_at x.jf out (meet_at x.jt out slots)
    else meet_at 0 out slots

unfoldable pub is_redundant : Insn → AState → Bool
is_redundant x state = is_ld_abs x && state_eq state (load x.code x.k)

-- The sweep, over a suffix of the program and the slots of its instructions.
unfoldable pub sweep : List Insn → List (Option AState) → List Bool
sweep [] slots = []
sweep (x ∷ xs) [] = false ∷ sweep xs []
sweep (x ∷ xs) (none ∷ slots) = false ∷ sweep xs slots
sweep (x ∷ xs) (some state ∷ slots) =
    is_redundant x state ∷ sweep xs (propagate x (transfer x state) slots)

unfoldable pub initial_slots : List Insn → List (Option AState)
initial_slots insns = set (replicate (length insns) none) 0 (some unknown)

unfoldable pub redundant_load_marks : List Insn → List Bool
redundant_load_marks insns = sweep insns (initial_slots insns)

-- Pass 3, reachability.
-- What the walk pushes for instruction `x` at index `i`, the last pushed first.
unfoldable pub successors : Insn → ℕ → List ℕ
successors x i =
    if is_ret x
    then []
    else if is_ja x
    then (i + 1 + x.k) ∷ []
    else if is_cond_jump x
    then (i + 1 + x.jf) ∷ (i + 1 + x.jt) ∷ []
    else (i + 1) ∷ []

abbrev pub push_all : List ℕ → List ℕ → List ℕ
push_all [] stack = stack
push_all (i ∷ is) stack = i ∷ push_all is stack

-- The `while let` loop. A popped index that is out of range or already marked is dropped.
unfoldable pub reach_loop : ℕ → List Insn → List ℕ → List Bool → Option (List Bool)
reach_loop fuel insns [] reachable = some reachable
reach_loop zero insns (i ∷ stack) reachable = none
reach_loop (suc fuel) insns (i ∷ stack) reachable = elim (get_elem? insns i) [
  | none ↦ reach_loop fuel insns stack reachable
  | some x ↦ elim (get_or reachable i true) [
    | true ↦ reach_loop fuel insns stack reachable
    | false ↦ reach_loop fuel insns (push_all (successors x i) stack) (set reachable i true)
  ]
]

-- At most two pushes for each instruction that is marked.
unfoldable pub reachable_marks : List Insn → Option (List Bool)
reachable_marks insns =
    reach_loop (suc (2 * length insns)) insns (0 ∷ []) (replicate (length insns) false)

-- Pass 3, removal.
-- The number of kept instructions before each index, and before the end.
unfoldable pub new_index : ℕ → List Bool → List ℕ
new_index count [] = count ∷ []
new_index count (k ∷ keep) = count ∷ new_index (count + (if k then 1 else 0)) keep

abbrev pub index_at : List ℕ → ℕ → ℕ
index_at index t = get_or index t 0

-- The offset of a jump from `i` to `t`, in the new numbering. The bound is `new_index.len() - 1`.
unfoldable pub new_offset : List ℕ → ℕ → ℕ → ℕ
new_offset index i t = index_at index (min t (length index - 1)) - index_at index i - 1

unfoldable pub retarget : List ℕ → ℕ → Insn → Insn
retarget index i x =
    if is_ja x
    then record x { k = new_offset index i (i + 1 + x.k) % 2 ^ 32 }
    else if is_cond_jump x
    then record x {
      jt = new_offset index i (i + 1 + x.jt) % 2 ^ 8;
      jf = new_offset index i (i + 1 + x.jf) % 2 ^ 8;
    }
    else x

unfoldable pub compact : List ℕ → ℕ → List Insn → List Bool → List Insn
compact index i [] keep = []
compact index i (x ∷ xs) [] = []
compact index i (x ∷ xs) (k ∷ keep) =
    let rest = compact index (i + 1) xs keep in if k then retarget index i x ∷ rest else rest

unfoldable pub all_kept : List Bool → Bool
all_kept [] = true
all_kept (k ∷ keep) = k && all_kept keep

unfoldable pub remove_unkept : List Insn → List Bool → List Insn
remove_unkept insns keep = if all_kept keep then insns else compact (new_index 0 keep) 0 insns keep

-- The three passes in order.
unfoldable pub keep_marks : List Insn → List Bool → List Bool → List Bool
keep_marks (x ∷ xs) (reachable ∷ rs) (redundant ∷ ds) =
    (reachable && not redundant && not (is_ja x && x.k == 0)) ∷ keep_marks xs rs ds
keep_marks _ _ _ = []

-- `none` stands for a walk that is cut off by its fuel.
unfoldable pub optimize : List Insn → Option (List Insn)
optimize insns =
    let threaded = thread_jumps insns in
    elim (reachable_marks threaded) [
      | none ↦ none
      | some reachable ↦
          some
            (remove_unkept threaded (keep_marks threaded reachable (redundant_load_marks threaded)))
    ]
