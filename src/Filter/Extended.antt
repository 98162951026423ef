-- ===== src/Filter/Extended.antt =====
-- pktbaffle/src/lib.rs: `compile` for the extended target.
use pktbaffle.Prelude.{ℕ, List, ◌≡◌, true, length}
use pktbaffle.Ast.{Expr}
use pktbaffle.Codegen.Facts.{LinkType}
use pktbaffle.Lexer.Token.{Spanned}
use pktbaffle.Lexer.Literal.{Lexed}
use pktbaffle.Lexer.Scanned.{Scanned, scanned, stopped, lex-Scanned}
use pktbaffle.Parser.Base as ParserBase
use pktbaffle.Parser.Level.{parse}
use pktbaffle.Parser.Progress.{all_in_range-AllInRange}
use pktbaffle.Parser.Sound.{Verdict, accepted, parse-Verdict}
use pktbaffle.Ebpf.{Insn}
use pktbaffle.Ebpf.State as ExtendedState
use pktbaffle.Ebpf.State.{CodegenError}
use pktbaffle.Ebpf.Encode as ExtendedEncode
use pktbaffle.Ebpf.Emit.{compile}
use pktbaffle.Ebpf.Jumps.{Inside, is_reported}
use pktbaffle.Ebpf.Jumps.Emit.{Compiled, EndsInExit, compiled, compile-Compiled}
use pktbaffle.Filter.{
  Error, ebpf_error, Result, ok, err, extended, extended_program, Program, of_lexer, of_parser,
  of_extended, compile_filter, ◌>>=◌,
}
use pktbaffle.Filter.Sound.{InText, at_character, in_grammar}

-- What `compile` may return for the extended target.
pub data Extended (src : List ℕ) : Result Program → Type 0 where
  emitted :
      {is : List Insn}
      → Inside (length is) 0 is
      → EndsInExit is
      → Extended src (ok (extended_program (record { insns = is })))
  not_read : {e : Error} → InText src e → Extended src (err e)
  not_emitted : {e : CodegenError} → is_reported e ≡ true → Extended src (err (ebpf_error e))

Compiled-Extended :
    {src : List ℕ} {r : ExtendedState.Result ExtendedEncode.Program}
    → Compiled r
    → Extended src (of_extended r)
Compiled-Extended (compiled v x) = emitted v x
Compiled-Extended (Compiled.refused e) = not_emitted e

Verdict-Extended :
    {src : List ℕ} {ts : List Spanned} {r : ParserBase.Result Expr} (link : LinkType)
    → Verdict ts r
    → Extended src (of_parser r >>= (λ ast. of_extended (compile ast link)))
Verdict-Extended link (accepted {e = e} d) = Compiled-Extended (compile-Compiled e link)
Verdict-Extended link (Verdict.refused h) = not_read (in_grammar h)

Scanned-Extended :
    {src : List ℕ} {r : Lexed (List Spanned)} (link : LinkType)
    → Scanned 0 (length src) r
    → Extended src
        (of_lexer r >>= (λ ts. of_parser (parse ts) >>= (λ ast. of_extended (compile ast link))))
Scanned-Extended link (scanned {ts = ts} o f) =
    Verdict-Extended link (parse-Verdict ts (all_in_range-AllInRange ts f))
Scanned-Extended link (stopped e a b) = not_read (at_character e b)

-- For every text and link type, `compile` for the extended target returns a program whose jumps go at
-- most 32767 instructions forward and land inside it and which ends with `exit`, or an error: at a character of the text, in the
-- grammar, or one that the code generator reports.
pub compile_filter-Extended :
    (src : List ℕ) (link : LinkType) → Extended src (compile_filter src link extended)
unfolding compile_filter
compile_filter-Extended src link = Scanned-Extended link (lex-Scanned src)
