-- ===== src/Ebpf/Tests.antt =====
-- pktbaffle/src/ebpf.rs: a program and its bytes, and a compiled filter.
use pktbaffle.Prelude.{◌≡◌, ◌∷◌, [], List, some, arith}
use pktbaffle.Ast.{Expr, proto, tcp, host, v4, src_or_dst}
use pktbaffle.Codegen.Facts.{ethernet}
use pktbaffle.Ebpf.{Insn}
use pktbaffle.Ebpf.Emit.{compile}
use pktbaffle.Ebpf.Jumps.Emit.{Compiled, compile-Compiled}
use pktbaffle.Ebpf.Encode.{AllTyped, none_left, also, bytes_of, read_insns, read_insns-bytes_of}

-- A load of two bytes and a jump that tests them.
abbrev load_and_test : List Insn
load_and_test =
    record { code = 0x69; regs = 0x24; off = 12; imm = 0 }
    ∷ record { code = 0x55; regs = 0x04; off = 0xfffe; imm = 0x80000800 }
    ∷ []

load_and_test-AllTyped : AllTyped load_and_test
load_and_test-AllTyped =
    also
      (record {
        code_u8 = omega arith;
        regs_u8 = omega arith;
        off_i16 = omega arith;
        imm_i32 = omega arith;
      })
      (also
        (record {
          code_u8 = omega arith;
          regs_u8 = omega arith;
          off_i16 = omega arith;
          imm_i32 = omega arith;
        })
        none_left)

read_insns-bytes_of_example : read_insns (bytes_of load_and_test) ≡ some load_and_test
read_insns-bytes_of_example = read_insns-bytes_of load_and_test load_and_test-AllTyped

-- `tcp or not host 192.0.2.1`.
abbrev tcp_or_other_host : Expr
tcp_or_other_host =
    Expr.or (Expr.primitive (proto tcp))
      (Expr.not (Expr.primitive (host (v4 0xc0000201) src_or_dst)))

compile-Compiled_example : Compiled (compile tcp_or_other_host ethernet)
compile-Compiled_example = compile-Compiled tcp_or_other_host ethernet
