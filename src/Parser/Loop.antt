-- ===== src/Parser/Loop.antt =====
-- pktbaffle/src/parser.rs: the loop of `parse_expr` over its explicit stack returns only what the
-- grammar derives, and always returns.
use pktbaffle.Prelude.{
  ℕ, zero, suc, ◌+◌, ◌<◌, ◌≤◌, ◌≡◌, inl, inr, refl, ◌∙◌, ap, true, false, Bool, List, [], ◌∷◌,
  Option, some, none, arith, length, ◌==◌, if◌then◌else◌,
}
use pktbaffle.Ast.{Expr, Primitive}
use pktbaffle.Lexer.Token.{Token, Spanned}
use pktbaffle.Parser.Base.{
  ParseError, Parser, P, Result, ok, err, token_at, is_token, cur_is, eat, expect, cur_tok,
  max_paren_depth, nested_too_deeply,
}
use pktbaffle.Parser.Keyword.{parse_primitive}
use pktbaffle.Parser.Level.{
  Open, starts_primitive, looks_like_primitive_start, parse_logical_op, eat_not, count_nots,
  apply_nots, join, Folded, again, complete, fold_operand, expr_loop, parse_expr,
}
use pktbaffle.Parser.Progress.{reported, AllInRange, Post, done, failed}
use pktbaffle.Parser.Progress.Primitive.{Fits}
use pktbaffle.Parser.Progress.Keyword.{parse_primitive-Post}
use pktbaffle.Parser.Grammar.{
  state_at, state-eq, NotAt, Derives, expr, operand, leaf, negation, group, single, disjunction,
  conjunction, juxtaposition, inside_next, NotAt-inside,
}
use pktbaffle.Parser.Exact.{
  Exact, not-Exact, bang-Exact, lparen-Exact, rparen-Exact, and-Exact, or-Exact, is_token-Exact,
}

module _ (ts : List Spanned) where
  -- A result: a value and a position with `Q`, or a reported error.
  pub data Ends {A : Type 0} (Q : A → ℕ → Type 0) : Result (A × Parser) → Type 0 where
    at : {a : A} (q : ℕ) → Q a q → Ends Q (ok (a, state_at ts q))
    bad : {e : ParseError} → reported e ≡ true → Ends Q (err e)

  bind-Ends :
      {A B : Type 0} {Q : A → ℕ → Type 0} {R : B → ℕ → Type 0} {r : Result (A × Parser)}
      (f : A → Parser → Result (B × Parser))
      → Ends Q r
      → ((a : A) (q : ℕ) → Q a q → Ends R (f a (state_at ts q)))
      → Ends R (elim r [ ok (a, s) ↦ f a s | err e ↦ err e ])
  bind-Ends f (at q h) k = k _ q h
  bind-Ends f (bad e) k = bad e

  widen :
      {A : Type 0} {Q R : A → ℕ → Type 0} {r : Result (A × Parser)}
      → Ends Q r
      → ((a : A) (q : ℕ) → Q a q → R a q)
      → Ends R r
  widen (at q h) k = at q (k _ q h)
  widen (bad e) k = bad e

  -- `eat` took the token that stands at the position, or nothing.
  data Saw (t : Token) (p : ℕ) : Result (Bool × Parser) → Type 0 where
    seen : token_at ts p ≡ some t → Saw t p (ok (true, state_at ts (p + 1)))
    unseen : Saw t p (ok (false, state_at ts p))

  Saw-if :
      (t : Token) (p : ℕ) (b : Bool)
      → (b ≡ true → token_at ts p ≡ some t)
      → Saw t p (if b then ok (true, state_at ts (p + 1)) else ok (false, state_at ts p))
  Saw-if t p true h = seen (h refl)
  Saw-if t p false h = unseen

  eat-Saw : (t : Token) (p : ℕ) → Exact t → Saw t p (eat t (state_at ts p))
  unfolding eat cur_is
  eat-Saw t p h =
      Saw-if t p (is_token t (token_at ts p)) (λ e. is_token-Exact t (token_at ts p) h e)

  on-Saw :
      {B : Type 0} {t : Token} {p : ℕ} {R : B → ℕ → Type 0} {r : Result (Bool × Parser)}
      (f : Bool → Parser → Result (B × Parser))
      → Saw t p r
      → (token_at ts p ≡ some t → Ends R (f true (state_at ts (p + 1))))
      → Ends R (f false (state_at ts p))
      → Ends R (elim r [ ok (a, s) ↦ f a s | err e ↦ err e ])
  on-Saw f (seen e) k l = k e
  on-Saw f unseen k l = l

  -- The `!`s from `p` up to `q`.
  data Nots (p : ℕ) : ℕ → ℕ → Type 0 where
    no_nots : Nots p p 0
    one_more : {q n : ℕ} → Nots p q n → NotAt ts q → Nots p (q + 1) (suc n)

  data SawNot (p : ℕ) : Result (Bool × Parser) → Type 0 where
    seen_not : NotAt ts p → SawNot p (ok (true, state_at ts (p + 1)))
    unseen_not : SawNot p (ok (false, state_at ts p))

  bang-SawNot : {p : ℕ} {r : Result (Bool × Parser)} → Saw Token.bang p r → SawNot p r
  bang-SawNot (seen e) = seen_not (inr e)
  bang-SawNot unseen = unseen_not

  not-SawNot :
      {p : ℕ} {r : Result (Bool × Parser)} (f : Bool → Parser → Result (Bool × Parser))
      → Saw Token.not p r
      → f true (state_at ts (p + 1)) ≡ ok (true, state_at ts (p + 1))
      → SawNot p (f false (state_at ts p))
      → SawNot p (elim r [ ok (a, s) ↦ f a s | err e ↦ err e ])
  not-SawNot f (seen e) same k = rw same (seen_not (inl e))
  not-SawNot f unseen same k = k

  eat_not-SawNot : (p : ℕ) → SawNot p (eat_not (state_at ts p))
  unfolding eat_not
  eat_not-SawNot p =
      not-SawNot _ (eat-Saw Token.not p not-Exact) refl
        (bang-SawNot (eat-Saw Token.bang p bang-Exact))

  on-SawNot :
      {B : Type 0} {p : ℕ} {R : B → ℕ → Type 0} {r : Result (Bool × Parser)}
      (f : Bool → Parser → Result (B × Parser))
      → SawNot p r
      → (NotAt ts p → Ends R (f true (state_at ts (p + 1))))
      → Ends R (f false (state_at ts p))
      → Ends R (elim r [ ok (a, s) ↦ f a s | err e ↦ err e ])
  on-SawNot f (seen_not e) k l = k e
  on-SawNot f unseen_not k l = l

  -- Every `!` is a token, so more fuel than tokens left is enough.
  count_nots-Ends :
      (fuel p q n : ℕ)
      → Nots p q n
      → q ≤ length ts
      → length ts < fuel + q
      → Ends (λ m r. Nots p r m × (q ≤ r) × (r ≤ length ts)) (count_nots fuel n (state_at ts q))
  unfolding count_nots
  count_nots-Ends zero p q n h l e = absurd (omega arith)
  count_nots-Ends (suc fuel) p q n h l e =
      on-SawNot _ (eat_not-SawNot q)
        (λ at_q.
          widen
            (count_nots-Ends fuel p (q + 1) (suc n) (one_more h at_q) (NotAt-inside ts q at_q)
              (omega arith))
            (λ m r (ns, below, in_list). (ns, omega arith, in_list)))
        (at q (h, omega arith, l))

  -- What a level has folded from `p` up to `q`, with the operator that comes next.
  data LevelAt (p : ℕ) : ℕ → Option (Expr × Bool) → Type 0 where
    fresh : LevelAt p p none
    after_or :
        {q : ℕ} {l : Expr}
        → Derives ts expr p q l
        → token_at ts q ≡ some Token.or
        → LevelAt p (q + 1) (some (l, true))
    after_and :
        {q : ℕ} {l : Expr}
        → Derives ts expr p q l
        → token_at ts q ≡ some Token.and
        → LevelAt p (q + 1) (some (l, false))
    beside :
        {q : ℕ} {l : Expr}
        → Derives ts expr p q l
        → starts_primitive (token_at ts q) ≡ true
        → LevelAt p q (some (l, false))

  -- The suspended levels, down to the `(` before the current level's start.
  data Stack : ℕ → List Open → Type 0 where
    outermost : Stack 0 []
    inside :
        {p q r n : ℕ} {left : Option (Expr × Bool)} {levels : List Open}
        → Stack p levels
        → LevelAt p q left
        → Nots q r n
        → token_at ts r ≡ some Token.lparen
        → Stack (r + 1) (record { left = left; nots = n } ∷ levels)

  join-Derives :
      {p q r : ℕ} {left : Option (Expr × Bool)} {e : Expr}
      → LevelAt p q left
      → Derives ts operand q r e
      → Derives ts expr p r (join left e)
  join-Derives fresh d = single d
  join-Derives (after_or l o) d = disjunction l o d
  join-Derives (after_and l o) d = conjunction l o d
  join-Derives (beside l o) d = juxtaposition l o d

  apply_nots-Derives :
      {p q r : ℕ} (n : ℕ) (e : Expr)
      → Nots p q n
      → Derives ts operand q r e
      → Derives ts operand p r (apply_nots n e)
  unfolding apply_nots
  apply_nots-Derives n e no_nots d = d
  apply_nots-Derives n e (one_more {n = m} ns at_q) d =
      apply_nots-Derives m (Expr.not e) ns (negation at_q d)

  -- The operator after an expression resumes its level, or there is none.
  data Joined (p q : ℕ) (e : Expr) : Result (Option Bool × Parser) → Type 0 where
    more :
        {b : Bool} {r : ℕ}
        → LevelAt p r (some (e, b))
        → q ≤ r
        → r ≤ length ts
        → Joined p q e (ok (some b, state_at ts r))
    no_more : Joined p q e (ok (none, state_at ts q))

  beside-Joined :
      {p q : ℕ} {e : Expr} (b : Bool)
      → starts_primitive (token_at ts q) ≡ b
      → Derives ts expr p q e
      → q ≤ length ts
      → Joined p q e (ok ((if b then some false else none), state_at ts q))
  beside-Joined true h d l = more (beside d h) (omega arith) l
  beside-Joined false h d l = no_more

  on-Saw-Joined :
      {t : Token} {p q : ℕ} {e : Expr} {r : Result (Bool × Parser)}
      (f : Bool → Parser → Result (Option Bool × Parser))
      → Saw t q r
      → (token_at ts q ≡ some t → Joined p q e (f true (state_at ts (q + 1))))
      → Joined p q e (f false (state_at ts q))
      → Joined p q e (elim r [ ok (a, s) ↦ f a s | err e ↦ err e ])
  on-Saw-Joined f (seen e) k l = k e
  on-Saw-Joined f unseen k l = l

  parse_logical_op-Joined :
      {p q : ℕ} {e : Expr}
      → Derives ts expr p q e
      → q ≤ length ts
      → Joined p q e (parse_logical_op (state_at ts q))
  unfolding parse_logical_op looks_like_primitive_start cur_tok
  parse_logical_op-Joined {q = q} d l =
      on-Saw-Joined _ (eat-Saw Token.or q or-Exact)
        (λ o. more (after_or d o) (omega arith) (inside_next ts q o))
        (on-Saw-Joined _ (eat-Saw Token.and q and-Exact)
          (λ o. more (after_and d o) (omega arith) (inside_next ts q o))
          (beside-Joined (starts_primitive (token_at ts q)) refl d l))

  on-Joined :
      {B : Type 0} {p q : ℕ} {e : Expr} {R : B → ℕ → Type 0} {r : Result (Option Bool × Parser)}
      (f : Option Bool → Parser → Result (B × Parser))
      → Joined p q e r
      → ((b : Bool) (t : ℕ)
          → LevelAt p t (some (e, b))
          → q ≤ t
          → t ≤ length ts
          → Ends R (f (some b) (state_at ts t)))
      → Ends R (f none (state_at ts q))
      → Ends R (elim r [ ok (a, s) ↦ f a s | err e ↦ err e ])
  on-Joined f (more l a b) k m = k _ _ l a b
  on-Joined f no_more k m = m

  expect_rparen-Ends :
      (q : ℕ)
      → Ends
          (λ _ r. (token_at ts q ≡ some Token.rparen) × (r ≡ q + 1))
          (expect Token.rparen (state_at ts q))
  unfolding expect cur_tok
  expect_rparen-Ends q =
      on-Saw _ (eat-Saw Token.rparen q rparen-Exact) (λ e. at _ (e, refl)) (bad refl)

  -- What the inner loop leaves at a position: a level that goes on, or the whole expression.
  data FoldedAt (q : ℕ) : Folded → Type 0 where
    goes_on :
        {p : ℕ} {next : Expr × Bool} {levels : List Open}
        → Stack p levels
        → LevelAt p q (some next)
        → FoldedAt q (again next levels)
    is_complete : {e : Expr} → Derives ts expr 0 q e → FoldedAt q (complete e)

  fold_operand-Ends :
      (levels : List Open) (p q r s n : ℕ) (left : Option (Expr × Bool)) (e : Expr)
      → Stack p levels
      → LevelAt p q left
      → Nots q r n
      → Derives ts operand r s e
      → s ≤ length ts
      → Ends
          (λ x t. FoldedAt t x × (s ≤ t) × (t ≤ length ts))
          (fold_operand levels e n left (state_at ts s))
  unfolding fold_operand
  fold_operand-Ends [] p q r s n left e outermost l ns d b =
      let whole = join-Derives l (apply_nots-Derives n e ns d) in
      on-Joined _ (parse_logical_op-Joined whole b)
        (λ o t m below in_list. at t (goes_on outermost m, below, in_list))
        (at s (is_complete whole, omega arith, b))
  fold_operand-Ends (outer ∷ levels) p q r s n left e (inside st lv ms o) l ns d b =
      let whole = join-Derives l (apply_nots-Derives n e ns d) in
      on-Joined _ (parse_logical_op-Joined whole b)
        (λ o' t m below in_list. at t (goes_on (inside st lv ms o) m, below, in_list))
        (bind-Ends _ (expect_rparen-Ends s) (λ _ t (close, same). rw same (
          widen
            (fold_operand-Ends levels _ _ _ (s + 1) _ _ _ st lv ms (group o whole close)
              (inside_next ts s close))
            (λ x t (f, below, in_list). (f, omega arith, in_list)))))

  -- A primitive that is read takes a token at least.
  parse_primitive-Ends :
      (p : ℕ)
      → AllInRange ts
      → p ≤ length ts
      → Ends
          (λ x q.
            (parse_primitive (state_at ts p) ≡ ok (x, state_at ts q)) × (p < q) × (q ≤ length ts))
          (parse_primitive (state_at ts p))
  parse_primitive-Ends p fit l = from_Post (parse_primitive (state_at ts p)) refl (
      parse_primitive-Post fit (state_at ts p) p
        (record { same_tokens = refl; same_depth = refl; after = omega arith; inside = l }))
    where
      from_Post :
          (r : Result (Primitive × Parser))
          → parse_primitive (state_at ts p) ≡ r
          → Post ts 0 (suc p) Fits r
          → Ends
              (λ x q.
                (parse_primitive (state_at ts p) ≡ ok (x, state_at ts q))
                × (p < q)
                × (q ≤ length ts))
              r
      from_Post r e (failed h) = bad h
      from_Post r e (done {a} {s} i f) =
          let below = i.after in
          let same : s ≡ state_at ts (s.pos) = state-eq i in
          rw same (at (s.pos) (e ∙ ap (λ t. ok (a, t)) same, omega arith, i.inside))

  opened-Ends :
      {A : Type 0} {R : A → ℕ → Type 0} {s : Parser} (m : P A) (b : Bool)
      → Ends R (m s)
      → Ends R (elim b as (λ _. P A) [ true ↦ λ _. err nested_too_deeply | false ↦ m ] s)
  opened-Ends m true k = bad refl
  opened-Ends m false k = k

  on-Folded :
      {A : Type 0} {R : A → ℕ → Type 0} {folded : Folded} {t : ℕ}
      (f : Expr × Bool → List Open → P A) (g : Expr → P A)
      → FoldedAt t folded
      → ((p : ℕ) (next : Expr × Bool) (levels : List Open)
          → Stack p levels
          → LevelAt p t (some next)
          → Ends R (f next levels (state_at ts t)))
      → ((e : Expr) → Derives ts expr 0 t e → Ends R (g e (state_at ts t)))
      → Ends R (
          elim folded as (λ _. P A) [ again next rest ↦ f next rest | complete e ↦ g e ]
            (state_at ts t))
  on-Folded f g (goes_on st lv) k l = k _ _ _ st lv
  on-Folded f g (is_complete d) k l = l _ d

  -- Every turn of the outer loop takes a token.
  expr_loop-Ends :
      (fuel p q : ℕ) (levels : List Open) (left : Option (Expr × Bool))
      → AllInRange ts
      → Stack p levels
      → LevelAt p q left
      → q ≤ length ts
      → length ts < fuel + q
      → Ends
          (λ e t. Derives ts expr 0 t e × (t ≤ length ts))
          (expr_loop fuel levels left (state_at ts q))
  unfolding expr_loop
  expr_loop-Ends zero p q levels left fit st lv l h = absurd (omega arith)
  expr_loop-Ends (suc fuel) p q levels left fit st lv l h =
      bind-Ends _ (count_nots-Ends (length ts + 1) q q 0 no_nots l (omega arith))
        (λ n r (ns, below, in_list).
          on-Saw _ (eat-Saw Token.lparen r lparen-Exact)
            (λ o. opened-Ends _ (length levels == max_paren_depth) (
              expr_loop-Ends fuel (r + 1) (r + 1) _ none fit (inside st lv ns o) fresh
                (inside_next ts r o) (omega arith)))
            (bind-Ends _ (parse_primitive-Ends r fit in_list) (λ x s (e, took, b).
              bind-Ends _ (fold_operand-Ends levels p q r s n left _ st lv ns (leaf e) b)
                (λ folded t (f, further, c).
                  on-Folded _ _ f
                    (λ p' next rest st' lv'.
                      expr_loop-Ends fuel p' t rest (some next) fit st' lv' c (omega arith))
                    (λ e d. at t (d, c))))))

  pub parse_expr-Ends :
      AllInRange ts
      → Ends (λ e t. Derives ts expr 0 t e × (t ≤ length ts)) (parse_expr (state_at ts 0))
  unfolding parse_expr
  parse_expr-Ends fit =
      expr_loop-Ends (length ts + 1) 0 0 [] none fit outermost fresh (omega arith) (omega arith)
