-- ===== src/Parser/Sound.antt =====
-- pktbaffle/src/parser.rs: what `parse` returns.
use pktbaffle.Prelude.{
  ℕ, ◌*◌, ◌<◌, ◌≤◌, ◌≡◌, refl, subst, true, false, Bool, List, arith, length, ltb, if◌then◌else◌,
}
use pktbaffle.Ast.{Expr}
use pktbaffle.Ast.Tree.{size}
use pktbaffle.Parser.Bounded.{bounded}
use pktbaffle.Lexer.Token.{Spanned}
use pktbaffle.Parser.Base.{ParseError, Parser, Result, ok, err, token_at, cur_tok, trailing_input}
use pktbaffle.Parser.Level.{at_end, parse}
use pktbaffle.Parser.Progress.{reported, AllInRange}
use pktbaffle.Parser.Grammar.{Derives, expr, Derives-bounded}
use pktbaffle.Parser.Loop.{Ends, at, bad, parse_expr-Ends}

-- What a parse may return: a derivation of the whole token list, or an error of the source.
pub data Verdict (ts : List Spanned) : Result Expr → Type 0 where
  accepted : {e : Expr} → Derives ts expr 0 (length ts) e → Verdict ts (ok e)
  refused : {e : ParseError} → reported e ≡ true → Verdict ts (err e)

at_end-Verdict :
    {ts : List Spanned} {e : Expr} {t : ℕ} (b : Bool)
    → ltb t (length ts) ≡ b
    → Derives ts expr 0 t e
    → t ≤ length ts
    → Verdict ts (if b then err (trailing_input (token_at ts t)) else ok e)
at_end-Verdict true h d l = refused refl
at_end-Verdict {ts} {e} {t} false h d l =
    let same : t ≡ length ts = ground arith in accepted (subst (λ n. Derives ts expr 0 n e) same d)

Ends-Verdict :
    {ts : List Spanned} {r : Result (Expr × Parser)}
    → Ends ts (λ e t. Derives ts expr 0 t e × (t ≤ length ts)) r
    → Verdict ts (elim r [ ok (e, s) ↦ at_end e s | err e ↦ err e ])
unfolding cur_tok
Ends-Verdict {ts} (at t (d, l)) = at_end-Verdict (ltb t (length ts)) refl d l
Ends-Verdict (bad h) = refused h

-- If every number in the tokens is in its range, `parse` returns an expression only when the grammar
-- derives it from all the tokens, and otherwise an error with a message of the source: no loop runs
-- out of fuel and no index is out of bounds.
pub parse-Verdict : (ts : List Spanned) → AllInRange ts → Verdict ts (parse ts)
unfolding parse
parse-Verdict ts fit = Ends-Verdict (parse_expr-Ends ts fit)

of_accepted : {ts : List Spanned} {e : Expr} → Verdict ts (ok e) → Derives ts expr 0 (length ts) e
of_accepted (accepted d) = d

-- If every number in the tokens is in its range, an expression that `parse` returns has only numbers
-- that fit the types of the syntax tree, prefix lengths of IPv6 networks of at most 128, ports with no
-- protocol other than TCP, UDP and SCTP, and fewer nodes than twice the tokens.
pub parse-bounded :
    (ts : List Spanned) (e : Expr)
    → AllInRange ts
    → parse ts ≡ ok e
    → (bounded e ≡ true) × (size e < 2 * length ts)
parse-bounded ts e fit h =
    let d = of_accepted (subst (Verdict ts) h (parse-Verdict ts fit)) in
    let (f, b, s) = Derives-bounded fit (omega arith) d in (f, omega arith)
