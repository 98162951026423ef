-- ===== src/Filter.antt =====
-- pktbaffle/src/lib.rs: `parse` and `compile`, the composition of the lexer, the parser and the code
-- generators. A filter is the bytes of its text.
pub mod Sound
pub mod Extended
mod Tests
use pktbaffle.Prelude.{ℕ, List, Option, some, none}
use pktbaffle.Ast.{Expr}
use pktbaffle.Bpf.Encode as ClassicEncode
use pktbaffle.Codegen.Facts.{LinkType}
use pktbaffle.Codegen.State as ClassicState
use pktbaffle.Codegen.Emit as ClassicEmit
use pktbaffle.Ebpf.Encode as ExtendedEncode
use pktbaffle.Ebpf.State as ExtendedState
use pktbaffle.Ebpf.Emit as ExtendedEmit
use pktbaffle.Lexer.Token.{Spanned}
use pktbaffle.Lexer.Literal.{LexFault, Lexed}
use pktbaffle.Lexer.Literal as Literal
use pktbaffle.Lexer.Scan.{lex}
use pktbaffle.Parser.Base as ParserBase
use pktbaffle.Parser.Level as Level

pub data Target : Type 0 where
  classic extended : Target

-- A program is of the backend that the target names.
pub data Program : Type 0 where
  classic_program : ClassicEncode.Program → Program
  extended_program : ExtendedEncode.Program → Program

-- The errors, by the stage that raises them.
pub data Error : Type 0 where
  lex_error : LexFault → Error
  parse_error : ParserBase.ParseError → Error
  codegen_error : ClassicState.CodegenError → Error
  ebpf_error : ExtendedState.CodegenError → Error

pub data Result {ℓ} (A : Type ℓ) : Type ℓ where
  ok : A → Result A
  err : Error → Result A

abbrev pub of_lexer : {A : Type 0} → Lexed A → Result A
of_lexer (Literal.ok a) = ok a
of_lexer (Literal.err e) = err (lex_error e)

abbrev pub of_parser : {A : Type 0} → ParserBase.Result A → Result A
of_parser (ParserBase.ok a) = ok a
of_parser (ParserBase.err e) = err (parse_error e)

abbrev pub of_classic : ClassicState.Result ClassicEncode.Program → Result Program
of_classic (ClassicState.ok p) = ok (classic_program p)
of_classic (ClassicState.err e) = err (codegen_error e)

abbrev pub of_extended : ExtendedState.Result ExtendedEncode.Program → Result Program
of_extended (ExtendedState.ok p) = ok (extended_program p)
of_extended (ExtendedState.err e) = err (ebpf_error e)

infixl 5 ◌>>=◌
abbrev pub ◌>>=◌ : {A B : Type 0} → Result A → (A → Result B) → Result B
ok a >>= f = f a
err e >>= f = err e

unfoldable pub parse_filter : List ℕ → Result Expr
unfolding lex Level.parse
parse_filter filter = do tokens ← of_lexer (lex filter); of_parser (Level.parse tokens)

abbrev pub generate : Target → Expr → LinkType → Result Program
generate classic ast link = of_classic (ClassicEmit.compile ast link)
generate extended ast link = of_extended (ExtendedEmit.compile ast link)

unfoldable pub compile_filter : List ℕ → LinkType → Target → Result Program
unfolding lex Level.parse ClassicEmit.compile ExtendedEmit.compile
compile_filter filter link target = do
  tokens ← of_lexer (lex filter)
  ast ← of_parser (Level.parse tokens)
  generate target ast link

-- `Program::len`, `is_empty`, `to_le_bytes`, `as_classic` and `as_extended`.
unfoldable pub program_len : Program → ℕ
unfolding ClassicEncode.len ExtendedEncode.len
program_len (classic_program p) = ClassicEncode.len p
program_len (extended_program p) = ExtendedEncode.len p

unfoldable pub to_bytes : Program → List ℕ
unfolding ClassicEncode.program_bytes ExtendedEncode.program_bytes
to_bytes (classic_program p) = ClassicEncode.program_bytes p
to_bytes (extended_program p) = ExtendedEncode.program_bytes p

unfoldable pub as_classic : Program → Option ClassicEncode.Program
as_classic (classic_program p) = some p
as_classic (extended_program p) = none

unfoldable pub as_extended : Program → Option ExtendedEncode.Program
as_extended (classic_program p) = none
as_extended (extended_program p) = some p
