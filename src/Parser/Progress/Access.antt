-- ===== src/Parser/Progress/Access.antt =====
-- pktbaffle/src/parser.rs: a byte access takes tokens, and its numbers fit.
use pktbaffle.Prelude.{
  ℕ, zero, suc, ◌+◌, ◌<◌, ◌^◌, ◌≡◌, refl, true, List, [], ◌∷◌, ◌++◌, Option, some, none, arith,
  length, ltb, ◌&&◌, and-both, and-left, and-right,
}
use pktbaffle.Prelude.Ints.{ℤ, pos, negsuc, in_range}
use pktbaffle.Ast.{ArithOp, Layer}
use pktbaffle.Codegen.Sane.Access.{fits_ops, fits_rhs}
use pktbaffle.Codegen.Sane.Guards.{fits_primitive}
use pktbaffle.Parser.Bounded.{bounded_primitive}
use pktbaffle.Lexer.Token.{Token, Spanned}
use pktbaffle.Parser.Base.{Parser, token_at, is_token, cur_tok, peek_tok}
use pktbaffle.Parser.Access.{
  non_negative, size_of, parse_size, parse_byte_load, arith_op, alu_loop, cmp_op, parse_cmpop,
  rhs_layer, parse_cmp_rhs, parse_byte_access,
}
use pktbaffle.Parser.Progress.{
  AllInRange, Inv, Post, done, failed, Steps, Anything, bind-Post, back, loosen, advance-Post,
  advance-Taken, on-Taken, eat-Eaten, on-Eaten, bool-Post, option-Post, expect-Post, parse_u32-Post,
  choice-some,
}
use pktbaffle.Parser.Progress.Offset.{parse_offset_expr-Post}

non_negative-Post :
    {ts : List Spanned} {d p : ℕ} {s : Parser} (z : ℤ)
    → in_range (2 ^ 31) z ≡ true
    → Inv ts d p s
    → Post ts d p (λ n. n < 2 ^ 31) (non_negative z s)
non_negative-Post (pos n) h i = done i (ground arith)
non_negative-Post (negsuc n) h i = failed refl

parse_size-Post :
    {ts : List Spanned} {d p : ℕ} {s : Parser} → Inv ts d p s → Post ts d p Anything (parse_size s)
unfolding parse_size cur_tok
parse_size-Post i =
    on-Eaten _ (eat-Eaten Token.colon i)
      (λ s1 j.
        option-Post {s = s1} (size_of (token_at s1.tokens s1.pos)) _ _
          (λ size e.
            let (t, q) = choice-some size_of refl _ size e in
            bind-Post (advance-Post j q) (λ _ s2 k _. done (back (omega arith) k) tt))
          (λ _. failed refl))
      (λ s1 j. done j tt)

parse_byte_load-Post :
    {ts : List Spanned} (layer : Layer)
    → AllInRange ts
    → Steps ts 0 (λ l. l.offset < 2 ^ 31) (parse_byte_load layer)
unfolding parse_byte_load
parse_byte_load-Post layer fit s p i = bind-Post (expect-Post Token.lbracket i) (λ _ s1 j _.
    bind-Post (parse_offset_expr-Post fit s1 _ j) (λ z s2 k r.
      bind-Post (non_negative-Post z r k) (λ n s3 l small.
        bind-Post (parse_size-Post l) (λ _ s4 m _.
          bind-Post (expect-Post Token.rbracket m)
            (λ _ s5 o _. done (back (omega arith) o) small)))))

fits_ops-append :
    (ops : List (ArithOp × ℕ)) (op : ArithOp) (k : ℕ)
    → fits_ops ops ≡ true
    → k < 2 ^ 32
    → fits_ops (ops ++ ((op, k) ∷ [])) ≡ true
fits_ops-append [] op k h l = ground arith
fits_ops-append ((o, n) ∷ ops) op k h l =
    let q = and-right (ltb n (2 ^ 32)) _ h in
    and-both (ltb n (2 ^ 32)) _ (and-left (ltb n (2 ^ 32)) _ h) (fits_ops-append ops op k q l)

alu_loop-Post :
    {ts : List Spanned} {d : ℕ} (fuel : ℕ) (ops : List (ArithOp × ℕ)) (s : Parser) (p : ℕ)
    → AllInRange ts
    → fits_ops ops ≡ true
    → length ts < fuel + p
    → Inv ts d p s
    → Post ts d p (λ o. fits_ops o ≡ true) (alu_loop fuel ops s)
unfolding alu_loop cur_tok
alu_loop-Post zero ops s p fit h e i = let a = i.after in let b = i.inside in absurd (omega arith)
alu_loop-Post (suc fuel) ops s p fit h e i =
    option-Post {s = s} (arith_op (token_at s.tokens s.pos)) _ _
      (λ aop q.
        let (t, here) = choice-some arith_op refl _ aop q in
        bind-Post (advance-Post i here) (λ _ s1 j _.
          bind-Post (parse_u32-Post fit j) (λ k s2 l small.
            loosen (omega arith) (λ a x. x)
              (alu_loop-Post fuel _ s2 (suc (suc p)) fit (fits_ops-append ops aop k h small)
                (omega arith) l))))
      (λ _. done i h)

cmp_op-Post :
    {ts : List Spanned} {d p : ℕ} {s : Parser} (t : Option Token)
    → Inv ts d p s
    → Post ts d p Anything (cmp_op t s)
cmp_op-Post (some Token.eq) i = done i tt
cmp_op-Post (some Token.ne) i = done i tt
cmp_op-Post (some Token.lt) i = done i tt
cmp_op-Post (some Token.le) i = done i tt
cmp_op-Post (some Token.gt) i = done i tt
cmp_op-Post (some Token.ge) i = done i tt
cmp_op-Post (some Token.amp) i = done i tt
cmp_op-Post none i = failed refl
cmp_op-Post (some _) i = failed refl

pub parse_cmpop-Post :
    {ts : List Spanned} {d p : ℕ} {s : Parser}
    → AllInRange ts
    → Inv ts d p s
    → Post ts d (suc p) Anything (parse_cmpop s)
unfolding parse_cmpop
parse_cmpop-Post fit i =
    on-Taken _ (advance-Taken fit i) (λ t s1 g j. cmp_op-Post (some t) j) (λ s1. failed refl)

parse_cmp_rhs-Post :
    {ts : List Spanned} → AllInRange ts → Steps ts 0 (λ r. fits_rhs r ≡ true) parse_cmp_rhs
unfolding parse_cmp_rhs cur_tok peek_tok
parse_cmp_rhs-Post fit s p i =
    option-Post {s = s} (rhs_layer (token_at s.tokens s.pos)) _ _
      (λ layer q.
        let (t, here) = choice-some rhs_layer refl _ layer q in
        bool-Post {s = s} (is_token Token.lbracket (token_at s.tokens (s.pos + 1))) _ _
          (λ _. bind-Post (advance-Post i here) (λ _ s1 j _.
            bind-Post (parse_byte_load-Post layer fit s1 _ j)
              (λ l s2 k small. done (back (omega arith) k) (ground arith))))
          (λ _. bind-Post (parse_u32-Post fit i) (λ n s1 j small. done j (ground arith))))
      (λ _. bind-Post (parse_u32-Post fit i) (λ n s1 j small. done j (ground arith)))

pub parse_byte_access-Post :
    {ts : List Spanned} (layer : Layer)
    → AllInRange ts
    → Steps ts 0 (λ x. bounded_primitive x ≡ true) (parse_byte_access layer)
unfolding parse_byte_access bounded_primitive fits_primitive
parse_byte_access-Post layer fit s p i = bind-Post (expect-Post Token.lbracket i) (λ _ s1 j _.
    bind-Post (parse_offset_expr-Post fit s1 _ j) (λ z s2 k r.
      bind-Post (non_negative-Post z r k) (λ n s3 l small.
        bind-Post (parse_size-Post l) (λ _ s4 m _.
          bind-Post (expect-Post Token.rbracket m) (λ _ s5 o _.
            bind-Post (alu_loop-Post _ [] s5 _ fit refl (rw (o.same_tokens) (omega arith)) o)
              (λ ops s6 t fo. bind-Post (parse_cmpop-Post fit t) (λ op s7 u _.
                bind-Post (parse_cmp_rhs-Post fit s7 _ u) (λ rhs s8 v fr.
                  done (back (omega arith) v) (
                    and-both (ltb n (2 ^ 32) && fits_ops ops) (fits_rhs rhs)
                      (and-both (ltb n (2 ^ 32)) (fits_ops ops) (ground arith) fo) fr)))))))))
