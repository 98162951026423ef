-- ===== src/Parser/Grammar.antt =====
-- pktbaffle/src/parser.rs: the grammar of the module's comment, as derivations over the tokens.
-- `and`, `or` and juxtaposition have one precedence and associate to the left; `not` binds tighter.
use pktbaffle.Prelude.{
  ℕ, suc, ◌+◌, ◌*◌, ◌<◌, ◌≤◌, ◌≡◌, ◌⊎◌, inl, inr, refl, ap₂, subst, true, List, some, arith,
  and-both, length,
}
use pktbaffle.Ast.{Expr, Primitive}
use pktbaffle.Ast.Tree.{size}
use pktbaffle.Parser.Bounded.{bounded}
use pktbaffle.Lexer.Token.{Token, Spanned}
use pktbaffle.Parser.Base.{Parser, token_at, ok}
use pktbaffle.Parser.Keyword.{parse_primitive}
use pktbaffle.Parser.Level.{starts_primitive}
use pktbaffle.Parser.Progress.{AllInRange, Inv, Post, ok-Post, token-inside}
use pktbaffle.Parser.Progress.Primitive.{Fits}
use pktbaffle.Parser.Progress.Keyword.{parse_primitive-Post}

-- The parser at a position of the tokens, outside offset expressions.
abbrev pub state_at : List Spanned → ℕ → Parser
state_at ts p = record { tokens = ts; pos = p; depth = 0 }

pub state-eq : {ts : List Spanned} {p : ℕ} {s : Parser} → Inv ts 0 p s → s ≡ state_at ts (s.pos)
state-eq {s = s} i =
    ap₂ (λ t d. record { tokens = t; pos = s.pos; depth = d }) (i.same_tokens) (i.same_depth)

pub data Sort : Type 0 where
  expr operand : Sort

-- `not` or `!` stands at the position.
abbrev pub NotAt : List Spanned → ℕ → Type 0
NotAt ts p = (token_at ts p ≡ some Token.not) ⊎ (token_at ts p ≡ some Token.bang)

-- The tokens from `p` up to `q` are an expression of the sort.
pub data Derives (ts : List Spanned) : Sort → ℕ → ℕ → Expr → Type 0 where
  leaf :
      {p q : ℕ} {x : Primitive}
      → parse_primitive (state_at ts p) ≡ ok (x, state_at ts q)
      → Derives ts operand p q (Expr.primitive x)
  negation :
      {p q : ℕ} {e : Expr}
      → NotAt ts p
      → Derives ts operand (p + 1) q e
      → Derives ts operand p q (Expr.not e)
  group :
      {p q : ℕ} {e : Expr}
      → token_at ts p ≡ some Token.lparen
      → Derives ts expr (p + 1) q e
      → token_at ts q ≡ some Token.rparen
      → Derives ts operand p (q + 1) e
  single : {p q : ℕ} {e : Expr} → Derives ts operand p q e → Derives ts expr p q e
  disjunction :
      {p q r : ℕ} {l e : Expr}
      → Derives ts expr p q l
      → token_at ts q ≡ some Token.or
      → Derives ts operand (q + 1) r e
      → Derives ts expr p r (Expr.or l e)
  conjunction :
      {p q r : ℕ} {l e : Expr}
      → Derives ts expr p q l
      → token_at ts q ≡ some Token.and
      → Derives ts operand (q + 1) r e
      → Derives ts expr p r (Expr.and l e)
  juxtaposition :
      {p q r : ℕ} {l e : Expr}
      → Derives ts expr p q l
      → starts_primitive (token_at ts q) ≡ true
      → Derives ts operand q r e
      → Derives ts expr p r (Expr.and l e)

-- A primitive that was read takes a token, and fits.
leaf-facts :
    {ts : List Spanned} {p q : ℕ} {x : Primitive}
    → AllInRange ts
    → p ≤ length ts
    → parse_primitive (state_at ts p) ≡ ok (x, state_at ts q)
    → (p < q) × (q ≤ length ts) × Fits x
leaf-facts {ts} {p} {q} {x} fit l e =
    let start : Inv ts 0 p (state_at ts p) = record {
      same_tokens = refl;
      same_depth = refl;
      after = omega arith;
      inside = l;
    } in
    let (i, f) =
      ok-Post
        (subst (Post ts 0 (suc p) Fits) e (parse_primitive-Post fit (state_at ts p) p start)) in
    let a = i.after in (omega arith, i.inside, f)

-- The position after a token is in the list.
pub inside_next :
    (ts : List Spanned) (p : ℕ) {t : Token} → token_at ts p ≡ some t → p + 1 ≤ length ts
inside_next ts p {t} e = omega (arith, token-inside ts p t e)

pub NotAt-inside : (ts : List Spanned) (p : ℕ) → NotAt ts p → p + 1 ≤ length ts
NotAt-inside ts p (inl e) = inside_next ts p e
NotAt-inside ts p (inr e) = inside_next ts p e

-- The numbers of the expression are bounded, and it has fewer nodes than twice its tokens.
pub Derives-bounded :
    {ts : List Spanned} {sort : Sort} {p q : ℕ} {e : Expr}
    → AllInRange ts
    → p ≤ length ts
    → Derives ts sort p q e
    → (bounded e ≡ true) × (q ≤ length ts) × (size e + 1 + 2 * p ≤ 2 * q)
unfolding bounded size
Derives-bounded fit l (leaf e) = let (a, b, f) = leaf-facts fit l e in (f, b, omega arith)
Derives-bounded {ts = ts} {p = p} fit l (negation n d) =
    let in_list = NotAt-inside ts p n in
    let (f, b, s) = Derives-bounded fit in_list d in (f, b, omega arith)
Derives-bounded {ts = ts} {p = p} fit l (group {q = q} o d c) =
    let (f, b, s) = Derives-bounded fit (inside_next ts p o) d in
    (f, inside_next ts q c, omega arith)
Derives-bounded fit l (single d) = Derives-bounded fit l d
Derives-bounded {ts = ts} fit l (disjunction {q = q} {l = left} {e = right} d o r) =
    let (f, b, s) = Derives-bounded fit l d in
    let (g, c, t) = Derives-bounded fit (inside_next ts q o) r in
    (and-both (bounded left) (bounded right) f g, c, omega arith)
Derives-bounded {ts = ts} fit l (conjunction {q = q} {l = left} {e = right} d o r) =
    let (f, b, s) = Derives-bounded fit l d in
    let (g, c, t) = Derives-bounded fit (inside_next ts q o) r in
    (and-both (bounded left) (bounded right) f g, c, omega arith)
Derives-bounded fit l (juxtaposition {l = left} {e = right} d o r) =
    let (f, b, s) = Derives-bounded fit l d in
    let (g, c, t) = Derives-bounded fit b r in
    (and-both (bounded left) (bounded right) f g, c, omega arith)
