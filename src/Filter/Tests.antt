-- ===== src/Filter/Tests.antt =====
-- pktbaffle/src/lib.rs: filters from their text to a program.
use pktbaffle.Prelude.{ℕ, ◌≡◌, List, refl, arith}
use pktbaffle.Bpf.{Insn}
use pktbaffle.Vm.{Packet, run}
use pktbaffle.Codegen.Facts.{ethernet}
use pktbaffle.Codegen.Tests.{web, web_program, web_state, web_assembled}
use pktbaffle.Lexer.Bytes.{codes}
use pktbaffle.Filter.{ok, classic, extended, classic_program, parse_filter, compile_filter}
use pktbaffle.Filter.Extended.{Extended, compile_filter-Extended}
use pktbaffle.Filter.Sound.{Outcome, parse_filter-Outcome, compile_filter-run}

abbrev web_filter : List ℕ
web_filter = codes "tcp and dst port 80"

parse_filter-web_filter : parse_filter web_filter ≡ ok web
unfolding parse_filter
parse_filter-web_filter = refl

parse_filter-Outcome_example : Outcome (codes "tcp port") (parse_filter (codes "tcp port"))
parse_filter-Outcome_example = parse_filter-Outcome (codes "tcp port")

compile_filter-run_example :
    (q : List Insn) × (compile_filter web_filter ethernet classic
      ≡ ok (classic_program (record { insns = q })))
    × ((pkt : Packet) → run q pkt ≡ run web_program pkt)
compile_filter-run_example =
    compile_filter-run web_filter ethernet web web_program web_state (omega arith)
      parse_filter-web_filter (omega arith) web_assembled

compile_filter-Extended_example :
    Extended (codes "udp or vlan 5") (compile_filter (codes "udp or vlan 5") ethernet extended)
compile_filter-Extended_example = compile_filter-Extended (codes "udp or vlan 5") ethernet

-- The operator after `src` is lost.
lost_operator-parse_filter :
    parse_filter (codes "src and host 1.2.3.4") ≡ parse_filter (codes "src host 1.2.3.4")
unfolding parse_filter
lost_operator-parse_filter = refl

-- An identifier over 16 bits is cut.
cut_identifier-parse_filter : parse_filter (codes "vlan 65636") ≡ parse_filter (codes "vlan 100")
unfolding parse_filter
cut_identifier-parse_filter = refl
