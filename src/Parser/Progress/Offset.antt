-- ===== src/Parser/Progress/Offset.antt =====
-- pktbaffle/src/parser.rs: offset expressions take a token at least, and the depth budget bounds
-- their recursion.
use pktbaffle.Prelude.{
  ℕ, zero, suc, ◌+◌, ◌<◌, ◌≤◌, ◌^◌, ◌≡◌, refl, bit_and, bit_or, bit_xor, if◌then◌else◌, ap, Bool,
  true, false, List, Option, some, none, arith, length, ltb,
}
use pktbaffle.Prelude.Ints.{ℤ, in_range, checked, ◌+ℤ◌, ◌-ℤ◌, ◌*ℤ◌, ◌/ℤ◌, negate}
use pktbaffle.Lexer.Token.{Token, Spanned}
use pktbaffle.Parser.Base.{
  Parser, Result, ok, err, P, ParseError, token_at, is_token, cur_tok, cur_is, turns, ◌>>=◌,
  offset_overflow, max_offset_depth, offset_paren_cost, offset_too_deep, offset_division_by_zero,
  shift_out_of_range,
}
use pktbaffle.Parser.Offset.{
  shift_amount, checked_shl, nonzero, bit_loop, shift_at, shift_turn, add_at, add_turn, mul_at,
  mul_turn, turn_loop, parse_offset_mul, parse_offset_add, parse_offset_shift, parse_offset_and,
  parse_offset_xor, parse_offset_or, nested_offset, atom_fuel, atom_at, parse_offset_atom,
  parse_offset_expr,
}
use pktbaffle.Parser.Progress.{
  reported, AllInRange, Inv, Post, done, failed, Steps, Anything, bind-Post, back, loosen,
  advance-Post, is_token-some, bool-Post, or_throw-Post, if-Post, expect-Post, parse_u32-Post,
}

-- A turn of a loop: it took a token, or the loop ends.
data Turned (ts : List Spanned) (d p : ℕ) : Result (Option ℤ × Parser) → Type 0 where
  went : {v : ℤ} {s : Parser} → Inv ts d (suc p) s → Turned ts d p (ok (some v, s))
  stopped : {s : Parser} → Inv ts d p s → Turned ts d p (ok (none, s))
  broke : {e : ParseError} → reported e ≡ true → Turned ts d p (err e)

abbrev Turns : List Spanned → ℕ → (ℤ → P (Option ℤ)) → Type 0
Turns ts d turn = (v : ℤ) (s : Parser) (p : ℕ) → Inv ts d p s → Turned ts d p (turn v s)

on-Turned :
    {ts : List Spanned} {d p q : ℕ} {r : Result (Option ℤ × Parser)}
    (f : Option ℤ → Parser → Result (ℤ × Parser))
    → Turned ts d p r
    → ((v : ℤ) (s : Parser) → Inv ts d (suc p) s → Post ts d q Anything (f (some v) s))
    → ((s : Parser) → Inv ts d p s → Post ts d q Anything (f none s))
    → Post ts d q Anything (elim r [ ok (a, s) ↦ f a s | err e ↦ err e ])
on-Turned f (went i) k l = k _ _ i
on-Turned f (stopped i) k l = l _ i
on-Turned f (broke e) k l = failed e

-- After a value, a turn is over.
went-Turned :
    {A : Type 0} {ts : List Spanned} {d p : ℕ} {r : Result (A × Parser)}
    {f : A → Parser → Result (Option ℤ × Parser)}
    → Post ts d (suc p) Anything r
    → ((a : A) (s : Parser) → Inv ts d (suc p) s → Turned ts d p (f a s))
    → Turned ts d p (elim r [ ok (a, s) ↦ f a s | err e ↦ err e ])
went-Turned (done i q) k = k _ _ i
went-Turned (failed e) k = broke e

-- Every turn of a loop takes a token, so more fuel than tokens left is enough.
turn_loop-Post :
    {ts : List Spanned} {d : ℕ} (turn : ℤ → P (Option ℤ))
    → Turns ts d turn
    → (fuel : ℕ) (lhs : ℤ) (s : Parser) (p : ℕ) → length ts < fuel + p
    → Inv ts d p s
    → Post ts d p Anything (turn_loop turn fuel lhs s)
unfolding turn_loop
turn_loop-Post turn h zero lhs s p e i = let a = i.after in let b = i.inside in absurd (omega arith)
turn_loop-Post turn h (suc fuel) lhs s p e i =
    on-Turned _ (h lhs s p i)
      (λ v s' j.
        loosen (omega arith) (λ a x. x) (turn_loop-Post turn h fuel v s' (suc p) (omega arith) j))
      (λ s' j. done j tt)

bit_loop-Post :
    {ts : List Spanned} {d : ℕ} (tok : Token) (op : ℕ → ℕ → ℕ) (operand : P ℤ)
    → Steps ts d Anything operand
    → (fuel : ℕ) (lhs : ℤ) (s : Parser) (p : ℕ) → length ts < fuel + p
    → Inv ts d p s
    → Post ts d p Anything (bit_loop tok op operand fuel lhs s)
unfolding bit_loop cur_is
bit_loop-Post tok op operand h zero lhs s p e i =
    let a = i.after in let b = i.inside in absurd (omega arith)
bit_loop-Post tok op operand h (suc fuel) lhs s p e i =
    bool-Post {s = s} (is_token tok (token_at s.tokens s.pos)) _ _
      (λ found.
        let (x, t) = is_token-some tok (token_at s.tokens s.pos) found in
        bind-Post (advance-Post i t) (λ _ s1 j _. bind-Post (h s1 (suc p) j) (λ rhs s2 k _.
          loosen (omega arith) (λ a x. x)
            (bit_loop-Post tok op operand h fuel _ s2 (suc (suc p)) (omega arith) k))))
      (λ _. done i tt)

mul_at-Turned :
    {ts : List Spanned} {d : ℕ} (operand : P ℤ)
    → Steps ts d Anything operand
    → (lhs : ℤ) (t : Option Token) (s : Parser) (p : ℕ) → token_at s.tokens s.pos ≡ t
    → Inv ts d p s
    → Turned ts d p (mul_at operand lhs t s)
unfolding mul_at
mul_at-Turned operand h lhs (some Token.star) s p e i = went-Turned (advance-Post i e) (λ _ s1 j.
    went-Turned (loosen (omega arith) (λ a x. x) (h s1 (suc p) j)) (λ rhs s2 k.
      went-Turned (or_throw-Post offset_overflow (checked (lhs *ℤ rhs)) refl k)
        (λ v s3 k0. went k0)))
mul_at-Turned operand h lhs (some Token.slash) s p e i = went-Turned (advance-Post i e) (λ _ s1 j.
    went-Turned (loosen (omega arith) (λ a x. x) (h s1 (suc p) j)) (λ rhs s2 k.
      went-Turned (or_throw-Post offset_division_by_zero (nonzero rhs) refl k) (λ n s3 k0.
        went-Turned (or_throw-Post offset_overflow (checked (lhs /ℤ n)) refl k0)
          (λ v s4 k1. went k1))))
mul_at-Turned operand h lhs none s p e i = stopped i
mul_at-Turned operand h lhs (some Token.and) s p e i = stopped i
mul_at-Turned operand h lhs (some _) s p e i = stopped i

add_at-Turned :
    {ts : List Spanned} {d : ℕ} (operand : P ℤ)
    → Steps ts d Anything operand
    → (lhs : ℤ) (t : Option Token) (s : Parser) (p : ℕ) → token_at s.tokens s.pos ≡ t
    → Inv ts d p s
    → Turned ts d p (add_at operand lhs t s)
unfolding add_at
add_at-Turned operand h lhs (some Token.plus) s p e i = went-Turned (advance-Post i e) (λ _ s1 j.
    went-Turned (loosen (omega arith) (λ a x. x) (h s1 (suc p) j)) (λ rhs s2 k.
      went-Turned (or_throw-Post offset_overflow (checked (lhs +ℤ rhs)) refl k)
        (λ v s3 k0. went k0)))
add_at-Turned operand h lhs (some Token.minus) s p e i = went-Turned (advance-Post i e) (λ _ s1 j.
    went-Turned (loosen (omega arith) (λ a x. x) (h s1 (suc p) j)) (λ rhs s2 k.
      went-Turned (or_throw-Post offset_overflow (checked (lhs -ℤ rhs)) refl k)
        (λ v s3 k0. went k0)))
add_at-Turned operand h lhs none s p e i = stopped i
add_at-Turned operand h lhs (some Token.and) s p e i = stopped i
add_at-Turned operand h lhs (some _) s p e i = stopped i

shift_at-Turned :
    {ts : List Spanned} {d : ℕ} (operand : P ℤ)
    → Steps ts d Anything operand
    → (lhs : ℤ) (t : Option Token) (s : Parser) (p : ℕ) → token_at s.tokens s.pos ≡ t
    → Inv ts d p s
    → Turned ts d p (shift_at operand lhs t s)
unfolding shift_at
shift_at-Turned operand h lhs (some Token.shl) s p e i = went-Turned (advance-Post i e) (λ _ s1 j.
    went-Turned (loosen (omega arith) (λ a x. x) (h s1 (suc p) j)) (λ rhs s2 k.
      went-Turned (or_throw-Post shift_out_of_range (shift_amount rhs) refl k) (λ r s3 k0.
        went-Turned (or_throw-Post offset_overflow (checked_shl lhs r) refl k0)
          (λ v s4 k1. went k1))))
shift_at-Turned operand h lhs (some Token.shr) s p e i = went-Turned (advance-Post i e) (λ _ s1 j.
    went-Turned (loosen (omega arith) (λ a x. x) (h s1 (suc p) j)) (λ rhs s2 k.
      went-Turned (or_throw-Post shift_out_of_range (shift_amount rhs) refl k)
        (λ r s3 k0. went k0)))
shift_at-Turned operand h lhs none s p e i = stopped i
shift_at-Turned operand h lhs (some Token.and) s p e i = stopped i
shift_at-Turned operand h lhs (some _) s p e i = stopped i

-- A level of turns over a level below.
turn_level-Post :
    {ts : List Spanned} {d : ℕ} (turn : ℤ → P (Option ℤ)) (operand : P ℤ)
    → Steps ts d Anything operand
    → Turns ts d turn
    → Steps ts d Anything (do lhs ← operand; fuel ← turns; turn_loop turn fuel lhs)
turn_level-Post turn operand h t s p i =
    bind-Post (h s p i)
      (λ lhs s1 j _. turn_loop-Post turn t _ lhs s1 (suc p) (rw (j.same_tokens) (omega arith)) j)

bit_level-Post :
    {ts : List Spanned} {d : ℕ} (tok : Token) (op : ℕ → ℕ → ℕ) (operand : P ℤ)
    → Steps ts d Anything operand
    → Steps ts d Anything (do lhs ← operand; fuel ← turns; bit_loop tok op operand fuel lhs)
bit_level-Post tok op operand h s p i = bind-Post (h s p i) (λ lhs s1 j _.
    bit_loop-Post tok op operand h _ lhs s1 (suc p) (rw (j.same_tokens) (omega arith)) j)

module _ {ts : List Spanned} {d : ℕ} (atom : P ℤ) (h : Steps ts d Anything atom) where
  parse_offset_mul-Post : Steps ts d Anything (parse_offset_mul atom)
  unfolding parse_offset_mul mul_turn cur_tok
  parse_offset_mul-Post =
      turn_level-Post (mul_turn atom) atom h (λ v s p i. mul_at-Turned atom h v _ s p refl i)

  parse_offset_add-Post : Steps ts d Anything (parse_offset_add atom)
  unfolding parse_offset_add add_turn cur_tok
  parse_offset_add-Post =
      let g = parse_offset_mul-Post in
      turn_level-Post (add_turn (parse_offset_mul atom)) (parse_offset_mul atom) g
        (λ v s p i. add_at-Turned (parse_offset_mul atom) g v _ s p refl i)

  parse_offset_shift-Post : Steps ts d Anything (parse_offset_shift atom)
  unfolding parse_offset_shift shift_turn cur_tok
  parse_offset_shift-Post =
      let g = parse_offset_add-Post in
      turn_level-Post (shift_turn (parse_offset_add atom)) (parse_offset_add atom) g
        (λ v s p i. shift_at-Turned (parse_offset_add atom) g v _ s p refl i)

  parse_offset_and-Post : Steps ts d Anything (parse_offset_and atom)
  unfolding parse_offset_and
  parse_offset_and-Post =
      bit_level-Post Token.amp bit_and (parse_offset_shift atom) parse_offset_shift-Post

  parse_offset_xor-Post : Steps ts d Anything (parse_offset_xor atom)
  unfolding parse_offset_xor
  parse_offset_xor-Post =
      bit_level-Post Token.caret bit_xor (parse_offset_and atom) parse_offset_and-Post

  pub parse_offset_or-Post : Steps ts d Anything (parse_offset_or atom)
  unfolding parse_offset_or
  parse_offset_or-Post =
      bit_level-Post Token.pipe bit_or (parse_offset_xor atom) parse_offset_xor-Post

depth-Post :
    {ts : List Spanned} {d p : ℕ} {s : Parser} (b : Bool)
    → ltb max_offset_depth s.depth ≡ b
    → Inv ts d p s
    → Post ts d p (λ _. d ≤ max_offset_depth) (if b then err offset_too_deep else ok (tt, s))
depth-Post true h i = failed refl
depth-Post false h i = let q = i.same_depth in done i (ground arith)

-- Inside the budget, the nested step runs deeper, and the depth is restored after it.
nested_offset-Post :
    {ts : List Spanned} {d p : ℕ} {s : Parser} (cost : ℕ) (f : P ℤ)
    → Inv ts d p s
    → (d + cost ≤ max_offset_depth → Steps ts (d + cost) Anything f)
    → Post ts d (suc p) Anything (nested_offset cost f s)
unfolding nested_offset
nested_offset-Post {d = d} {s = s} cost f i h =
    bind-Post
      (depth-Post (ltb max_offset_depth (s.depth + cost)) refl (record {
        same_tokens = i.same_tokens;
        same_depth = ap (λ n. n + cost) (i.same_depth);
        after = i.after;
        inside = i.inside;
      }))
      (λ _ s1 j small. bind-Post (h small s1 _ j) (λ v s2 k _.
        let q = k.same_depth in
        done
          (record {
            same_tokens = k.same_tokens;
            same_depth = omega arith;
            after = k.after;
            inside = k.inside;
          })
          tt))

atom_at-Post :
    {ts : List Spanned} {d : ℕ} (highest atom : P ℤ)
    → AllInRange ts
    → (d + offset_paren_cost ≤ max_offset_depth → Steps ts (d + offset_paren_cost) Anything highest)
    → (d + 1 ≤ max_offset_depth → Steps ts (d + 1) Anything atom)
    → (t : Option Token) (s : Parser) (p : ℕ) → token_at s.tokens s.pos ≡ t
    → Inv ts d p s
    → Post ts d (suc p) Anything (atom_at highest atom t s)
unfolding atom_at
atom_at-Post highest atom fit h g (some Token.lparen) s p e i =
    bind-Post (advance-Post i e) (λ _ s1 j _.
      bind-Post (nested_offset-Post offset_paren_cost highest j h) (λ v s2 k _.
        bind-Post (expect-Post Token.rparen k) (λ _ s3 l _. done (back (omega arith) l) tt)))
atom_at-Post highest atom fit h g (some Token.minus) s p e i =
    bind-Post (advance-Post i e) (λ _ s1 j _. bind-Post (nested_offset-Post 1 atom j g) (λ v s2 k _.
      loosen (omega arith) (λ a x. x) (or_throw-Post offset_overflow (checked (negate v)) refl k)))
atom_at-Post highest atom fit h g none s p e i =
    bind-Post (parse_u32-Post fit i) (λ n s1 j _. done j tt)
atom_at-Post highest atom fit h g (some Token.and) s p e i =
    bind-Post (parse_u32-Post fit i) (λ n s1 j _. done j tt)
atom_at-Post highest atom fit h g (some _) s p e i =
    bind-Post (parse_u32-Post fit i) (λ n s1 j _. done j tt)

-- The depth budget ends the recursion: at fuel 0 nothing of it would be left.
pub parse_offset_atom-Post :
    {ts : List Spanned} (fuel d : ℕ)
    → AllInRange ts
    → max_offset_depth < fuel + d
    → d ≤ max_offset_depth
    → Steps ts d Anything (parse_offset_atom fuel)
unfolding parse_offset_atom cur_tok
parse_offset_atom-Post zero d fit h b s p i = absurd (omega arith)
parse_offset_atom-Post (suc fuel) d fit h b s p i =
    atom_at-Post (parse_offset_or (parse_offset_atom fuel)) (parse_offset_atom fuel) fit
      (λ l.
        parse_offset_or-Post (parse_offset_atom fuel)
          (parse_offset_atom-Post fuel (d + offset_paren_cost) fit (omega arith) l))
      (λ l. parse_offset_atom-Post fuel (d + 1) fit (omega arith) l) (token_at s.tokens s.pos) s p
      refl i

-- The range of an `i32`, which is checked at the end.
pub parse_offset_expr-Post :
    {ts : List Spanned}
    → AllInRange ts
    → Steps ts 0 (λ z. in_range (2 ^ 31) z ≡ true) parse_offset_expr
unfolding parse_offset_expr
parse_offset_expr-Post fit s p i =
    bind-Post
      (parse_offset_or-Post (parse_offset_atom atom_fuel)
        (parse_offset_atom-Post atom_fuel 0 fit (omega arith) (omega arith)) s p i)
      (λ v s1 j _. if-Post {s = s1} (in_range (2 ^ 31) v) _ _ (λ h. done j h) (λ _. failed refl))
