-- ===== src/Lib.antt =====
-- pktbaffle: the compiler from packet filters to classic BPF and eBPF, its optimizer and its interpreter.
--
-- The repository holds two crates. `pktbaffle` compiles libpcap filter expressions: the lexer and the
-- parser give an expression (pktbaffle/src/ast.rs); the code generator (pktbaffle/src/codegen.rs) emits
-- classic BPF with jump offsets that are patched later, then hands the patched program to the
-- optimizer (pktbaffle/src/optimizer.rs); the interpreter (pktbaffle/src/vm.rs) runs a program on a
-- packet. A second code generator (pktbaffle/src/ebpf_codegen.rs) emits eBPF. `pkttap` captures packets
-- from files and from the operating system. This development models the path from the text of a filter
-- to a verdict, and the eBPF backend up to the bytes of its program.
--
-- Files and the code they are about:
--   Prelude            library names, Boolean tests on numbers, list operations over native numbers;
--   Prelude/Lists      lemmas on these lists; Prelude/Bits: lemmas on the bit operations;
--   Prelude/Ints       integers for the offset expressions of the parser;
--   Lexer              pktbaffle/src/lexer.rs, in these parts:
--     Token, Bytes     `Token`, `Spanned`, and the tests on bytes;
--     Literal, Ip6     `parse_numlike`, `parse_int`, `parse_mac`, and the address reader of the standard
--                      library; Keyword: the tables of words and operators;
--     Scan             `lex`: one turn of its loop, and the loop;
--     InRange, Ranges, Ip6Range, Turns, Scanned
--                      the ranges of numbers in tokens, and what the loop returns;
--   Parser             pktbaffle/src/parser.rs, in these parts:
--     Base             `Parser` with `cur_tok`, `advance`, `expect`, and the errors;
--     Offset, Access, Address, Primitive, Keyword
--                      offset expressions, byte access, addresses and networks, the primitives;
--     Level            `parse_expr` with its explicit stack of open parentheses, and `parse`;
--     Progress         each method moves forward and gives numbers in range, one module for each part;
--     Grammar          the documented grammar as a data type; Exact: the tokens without a payload;
--     Loop, Sound      the loop of `parse_expr` against the grammar, and what `parse` returns;
--     Bounded          the ranges of the numbers in a parsed expression;
--   Filter             pktbaffle/src/lib.rs: `parse`, `compile`, `Program`; Filter/Sound and
--                      Filter/Extended: the stages together, for either target;
--   Ebpf               pktbaffle/src/ebpf.rs: constants and `Insn`; Ebpf/Build: its constructors;
--   Ebpf/Encode        the bytes of a program;
--   Ebpf/State         pktbaffle/src/ebpf_codegen.rs: `Codegen`, `Patch`, `push`, `resolve`;
--   Ebpf/Load, Transport, Primitive
--                      bounds-checked loads and addresses, protocols and ports, the other primitives;
--   Ebpf/Emit          the work stack of `emit_expr`, `compile`;
--   Ebpf/Jumps         the invariant of the compiler's state: where jumps land and which instructions the
--                      patches name; one module for each part, and Jumps/Emit for `compile`;
--   Bpf                pktbaffle/src/bpf.rs: the opcode constants and `Insn`;
--   Bpf/Build          the constructors of `Insn`, one function for each;
--   Bpf/Encode         `to_le_bytes` and `Program`; Bpf/RoundTrip: the bytes read back;
--   Vm                 pktbaffle/src/vm.rs: `inner` as a loop of turns over `pc`, A, X and the scratch
--                      memory. `exec` is the body of the match on the class, `turn` also fetches;
--   Vm/Runs, Vm/Control  turns as a relation, its fuel, and what a turn does to `pc`;
--   Ast                pktbaffle/src/ast.rs: the types of expressions;
--   Ast/Tree           `PartialEq` of `Expr` with its explicit stack;
--   Codegen            pktbaffle/src/codegen.rs, in these parts:
--     Facts            `LinkType`, `L4Set`, `Facts`;
--     Guards           `GuardSet`, `required_guards`, `primitive_guards`;
--     State            `Patch`, `Patches`, `Codegen`, `push`, `resolve`, `offset`, `concat`;
--     Check            the checks of a field, `emit_ethertype`, `emit_ip4_l4`, `emit_ip6_l4`,
--                      `emit_proto`, `emit_l4_set_check`;
--     Addr, Port, Link, Access
--                      the other primitives: addresses, ports, link layer, byte access;
--     Emit             `emit_primitive`, the work stack of `emit_expr`, `compile`;
--     GuardWalk, EmitWalk
--                      the two explicit stacks against the recursion over the expression;
--     Compare          the comparisons of `emit_cmp` and `emit_cmp_x`, run by the interpreter;
--     Meet             the order of `L4Set` and the facts after two paths join;
--     Sane             the invariant of the state, one module for each of the parts above;
--     Sane/Guards      the filters whose numbers fit their types; Sane/Compile: `compile` and the
--                      verdict;
--   Optimizer          pktbaffle/src/optimizer.rs: `thread_jumps`, `redundant_load_marks`,
--                      `reachable_marks`, `remove_unkept`, `optimize`;
--   Optimizer/Dedup    `dedup_loads` and `adjust_jumps`; Optimizer/Adjust, DedupRuns, Deduped: one removal,
--                      the verdict, and the result of the loop;
--   Optimizer/Sane     the programs that the theorems are about: typed fields, `ja`s that land below
--                      2 ^ 32, and no MISC opcode other than TAX and TXA;
--   Optimizer/Thread, ThreadRuns, ThreadSound
--                      jump threading and the verdict; Optimizer/Chains: the chains of jumps that it
--                      follows;
--   Optimizer/Decode, Flow, Live, Reach, ReachTotal, Remove, Retarget, KeptTurn, Sound
--                      the other two passes and the verdict: the walk against the edges of the
--                      program, the sweep against the accumulator, and the renumbered jumps.
--
-- State and errors. A method of `&mut Codegen` is a function from the state to an error or to a result
-- and the next state; each error message is a constructor of `CodegenError`, a panic is `panicked`.
-- The interpreter returns `none` where the source returns `None`. Vectors are lists; a write at an
-- index of a list outside its range leaves it as it is, and the model asks for the element first
-- where the source would panic. The program is read front to back, so that a walk over the indices of
-- a vector is a walk over a suffix; `in_state[t]` is then the slot at distance `t - i - 1`.
--
-- Numbers. Native natural numbers with the wrap-around of the source written out: the ALU of the
-- interpreter computes % 2 ^ 32, `usize` is 64 bits wide. A cast such as `as u32` is a remainder. An
-- offset of a byte access is an `i32` that the code casts to `u32`: the model keeps its bit pattern.
-- The sums of header offsets and `vlan_depth` are plain: `vlan_depth` counts nodes of the filter, and
-- for a filter of fewer than 2 ^ 20 nodes they are below 2 ^ 23.
--
-- Fuel. Each loop of the source that is not structural is recursion on fuel, given by the definition:
-- `inner` takes n + 1 turns for n instructions, `reachable_marks` 2 n + 1, the stacks of `emit_expr`,
-- `required_guards` and `eq` the number of turns that `emit_turns`, `walk_turns` and `size` count. A
-- jump of the interpreter goes forward, the walk pushes at most two successors for an instruction that
-- it marks, and a stack is popped a fixed number of times for each node of the expression.
--
-- The loop of the lexer takes as many turns as the text has bytes, the loops of the parser one more than
-- the tokens, offset expressions at most 128 nested levels (the limit of the source).
--
-- A filter is the list of the bytes of its text. In an eBPF program the turns of the work stack are
-- counted by `emit_turns`, as for classic BPF. The lexer keeps the offset of each token. The eBPF
-- fields `off` and `imm`, signed in the source, are bit patterns; a sum of offsets in the eBPF code
-- generator is % 2 ^ 32 where the source adds a number of the filter.
--
-- Not modelled: the text output (`Display`, `Debug`), `Clone` and `Drop` of `Expr`, the run of an eBPF
-- program, which the kernel does, and the crate pkttap, which is input and output of the operating
-- system. The memo of `required_guards` is a cache by address, and is left out: the guards are
-- computed again each time. On opcodes of class MISC outside TAX and TXA, which no
-- constructor of `Insn` builds, `run` and `writes_a` decode different bits; the theorems on the optimizer exclude them.
-- A `ja` whose target lies beyond 2 ^ 32 is excluded too: the cast of the threaded offset cuts it.
pub mod Prelude
pub mod Bpf
pub mod Vm
pub mod Ast
pub mod Codegen
pub mod Lexer
pub mod Parser
pub mod Ebpf
pub mod Filter
pub mod Optimizer
