-- ===== src/Filter/Sound.antt =====
-- pktbaffle/src/lib.rs: a filter is compiled to a program with the verdict of the generated one, and a
-- refused filter is refused with a message.
use pktbaffle.Prelude.{
  ℕ, ◌^◌, ◌<◌, ◌≤◌, ◌≡◌, ◌⊎◌, inl, inr, refl, sym, subst, true, List, some, arith, length, ap, ◌∙◌,
}
use pktbaffle.Ast.{Expr}
use pktbaffle.Bpf.{Insn}
use pktbaffle.Vm.{Packet, run}
use pktbaffle.Codegen.Facts.{LinkType}
use pktbaffle.Codegen.State as ClassicState
use pktbaffle.Codegen.State.{Codegen, new}
use pktbaffle.Codegen.Emit.{assemble, compile}
use pktbaffle.Codegen.Sane.Compile.{compile-run}
use pktbaffle.Lexer.Token.{Spanned}
use pktbaffle.Lexer.Literal as Literal
use pktbaffle.Lexer.Literal.{Lexed, LexFault}
use pktbaffle.Lexer.Scan.{lex}
use pktbaffle.Lexer.Turns.{fault_offset}
use pktbaffle.Lexer.Scanned.{Scanned, scanned, stopped, lex-Scanned, Ordered-length}
use pktbaffle.Parser.Base as ParserBase
use pktbaffle.Parser.Level.{parse}
use pktbaffle.Parser.Progress.{reported, AllInRange, all_in_range-AllInRange}
use pktbaffle.Parser.Bounded.{bounded-fits}
use pktbaffle.Parser.Grammar.{Derives, expr}
use pktbaffle.Parser.Sound.{Verdict, accepted, refused, parse-Verdict, parse-bounded}
use pktbaffle.Filter.{
  Error, lex_error, parse_error, Result, ok, err, classic, classic_program, of_lexer, of_parser,
  of_classic, parse_filter, compile_filter, generate, ◌>>=◌,
}

-- An error that the text of a filter gives: at a character, or in the grammar.
pub data InText (src : List ℕ) : Error → Type 0 where
  at_character :
      {e : LexFault} {at : ℕ}
      → fault_offset e ≡ some at
      → at < length src
      → InText src (lex_error e)
  in_grammar : {e : ParserBase.ParseError} → reported e ≡ true → InText src (parse_error e)

-- What `parse` may return for a text.
pub data Outcome (src : List ℕ) : Result Expr → Type 0 where
  parsed :
      {ts : List Spanned} {e : Expr}
      → lex src ≡ Literal.ok ts
      → Derives ts expr 0 (length ts) e
      → Outcome src (ok e)
  rejected : {e : Error} → InText src e → Outcome src (err e)

of_verdict :
    {src : List ℕ} {ts : List Spanned} {r : ParserBase.Result Expr}
    → lex src ≡ Literal.ok ts
    → Verdict ts r
    → Outcome src (of_parser r)
of_verdict l (accepted d) = parsed l d
of_verdict l (refused h) = rejected (in_grammar h)

of_scanned :
    {src : List ℕ} (r : Lexed (List Spanned))
    → lex src ≡ r
    → Scanned 0 (length src) r
    → Outcome src (of_lexer r >>= (λ ts. of_parser (parse ts)))
of_scanned r l (scanned {ts} o f) = of_verdict l (parse-Verdict ts (all_in_range-AllInRange ts f))
of_scanned r l (stopped e a b) = rejected (at_character e b)

-- `parse` returns for every text: an expression that the grammar derives from all the tokens of the
-- text, or an error at a character of the text or in the grammar.
pub parse_filter-Outcome : (src : List ℕ) → Outcome src (parse_filter src)
unfolding parse_filter
parse_filter-Outcome src = of_scanned (lex src) refl (lex-Scanned src)

Lexed-cases :
    (r : Lexed (List Spanned))
    → ((e : LexFault) × (r ≡ Literal.err e)) ⊎ ((ts : List Spanned) × (r ≡ Literal.ok ts))
Lexed-cases (Literal.err e) = inl (e, refl)
Lexed-cases (Literal.ok ts) = inr (ts, refl)

Scanned-facts :
    (src : List ℕ) {ts : List Spanned}
    → Scanned 0 (length src) (Literal.ok ts)
    → AllInRange ts × (length ts ≤ length src)
Scanned-facts src (scanned {ts} o f) =
    (all_in_range-AllInRange ts f, omega (arith, Ordered-length (omega arith) o))

of_parser-ok : (r : ParserBase.Result Expr) (e : Expr) → of_parser r ≡ ok e → r ≡ ParserBase.ok e
of_parser-ok (ParserBase.ok a) e h = let q : a ≡ e = cc in ap ParserBase.ok q
of_parser-ok (ParserBase.err x) e h = absurd (ground arith)

-- The two stages of `parse`, from its result.
parse_filter-stages :
    (src : List ℕ) (e : Expr)
    → parse_filter src ≡ ok e
    → (ts : List Spanned) × (lex src ≡ Literal.ok ts) × (parse ts ≡ ParserBase.ok e)
unfolding parse_filter
parse_filter-stages src e h = elim (Lexed-cases (lex src)) [
  | inl (x, l) ↦ absurd (
      let q : err (lex_error x) ≡ ok e =
        ap (λ r. of_lexer r >>= (λ ts. of_parser (parse ts))) (sym l) ∙ h in
      ground arith)
  | inr (ts, l) ↦ (
    ts,
    l,
    of_parser-ok (parse ts) e (ap (λ r. of_lexer r >>= (λ ts. of_parser (parse ts))) (sym l) ∙ h),
  )
]

composed :
    (src : List ℕ) (link : LinkType) (ts : List Spanned) (e : Expr) (q : List Insn)
    → lex src ≡ Literal.ok ts
    → parse ts ≡ ParserBase.ok e
    → compile e link ≡ ClassicState.ok (record { insns = q })
    → compile_filter src link classic ≡ ok (classic_program (record { insns = q }))
unfolding compile_filter
composed src link ts e q l r c =
    ap (λ x. of_lexer x >>= (λ ts. of_parser (parse ts) >>= (λ ast. generate classic ast link))) l
    ∙ ap (λ x. of_parser x >>= (λ ast. generate classic ast link)) r
    ∙ ap of_classic c

-- For a filter of fewer than 2 ^ 19 bytes that `parse` accepts, if the code generator assembles a program
-- of fewer than 2 ^ 31 instructions for its expression, then `compile` for the classic target returns a
-- program that gives the verdict of the assembled one on every packet.
pub compile_filter-run :
    (src : List ℕ) (link : LinkType) (e : Expr) (p : List Insn) (cg : Codegen)
    → length src < 2 ^ 19
    → parse_filter src ≡ ok e
    → length p < 2 ^ 31
    → assemble e (new link) ≡ ClassicState.ok (p, cg)
    → (q : List Insn) × (compile_filter src link classic
        ≡ ok (classic_program (record { insns = q })))
      × ((pkt : Packet) → run q pkt ≡ run p pkt)
compile_filter-run src link e p cg short h l a =
    let (ts, lexed, read) = parse_filter-stages src e h in
    let (range, few) = Scanned-facts src (subst (Scanned 0 (length src)) lexed (lex-Scanned src)) in
    let (f, s) = parse-bounded ts e range read in
    let (q, done, same) = compile-run e link p cg (omega arith) (bounded-fits e f) l a in
    (q, composed src link ts e q lexed read done, same)
