-- ===== src/Parser/Offset.antt =====
-- pktbaffle/src/parser.rs: the constant offset expressions inside `[...]`.
-- The levels call each other downwards, and the lowest one calls the highest: the levels take the
-- lowest as an argument, and `parse_offset_atom` takes the depth of the recursion as fuel.
use pktbaffle.Prelude.{
  ℕ, zero, suc, ◌+◌, ◌-◌, ◌^◌, true, false, Option, some, none, ltb, if◌then◌else◌, bit_and, bit_or,
  bit_xor,
}
use pktbaffle.Prelude.Ints.{
  ℤ, pos, negsuc, ◌+ℤ◌, ◌-ℤ◌, ◌*ℤ◌, ◌/ℤ◌, ==ℤ, negate, checked, in_range, bitwise, shift_left,
  shift_right,
}
use pktbaffle.Lexer.Token.{Token}
use pktbaffle.Parser.Base.{
  P, ◌>>=◌, ◌>>◌, pure, throw, or_throw, cur_tok, cur_is, advance, expect, turns, parse_u32,
  max_offset_depth, offset_paren_cost, out_of_fuel, offset_out_of_range, shift_out_of_range,
  offset_overflow, offset_division_by_zero, offset_too_deep, ok, err,
}

-- `while self.cur_tok() == Some(&tok) { self.advance(); lhs = op(lhs, operand()?) }`.
unfoldable pub bit_loop : Token → (ℕ → ℕ → ℕ) → P ℤ → ℕ → ℤ → P ℤ
unfolding cur_is advance
bit_loop tok op operand zero lhs = throw out_of_fuel
bit_loop tok op operand (suc fuel) lhs = do
  found ← cur_is tok
  elim found [
    | true ↦ do advance; rhs ← operand; bit_loop tok op operand fuel (bitwise op lhs rhs)
    | false ↦ pure lhs
  ]

-- `0..64` contains the amount.
abbrev pub shift_amount : ℤ → Option ℕ
shift_amount (pos n) = if ltb n 64 then some n else none
shift_amount (negsuc n) = none

-- Left shifts that lose bits or reach the sign bit are rejected.
abbrev pub checked_shl : ℤ → ℕ → Option ℤ
checked_shl lhs rhs =
    if ==ℤ (shift_right (shift_left lhs rhs) rhs) lhs then some (shift_left lhs rhs) else none

-- A turn of the loop in `parse_offset_shift`, `none` when no shift follows.
unfoldable pub shift_at : P ℤ → ℤ → Option Token → P (Option ℤ)
unfolding advance
shift_at operand lhs (some Token.shl) = do
  advance
  rhs ← operand
  r ← or_throw shift_out_of_range (shift_amount rhs)
  v ← or_throw offset_overflow (checked_shl lhs r)
  pure (some v)
shift_at operand lhs (some Token.shr) = do
  advance
  rhs ← operand
  r ← or_throw shift_out_of_range (shift_amount rhs)
  pure (some (shift_right lhs r))
shift_at operand lhs _ = pure none

unfoldable pub shift_turn : P ℤ → ℤ → P (Option ℤ)
unfolding cur_tok shift_at
shift_turn operand lhs = do t ← cur_tok; shift_at operand lhs t

unfoldable pub add_at : P ℤ → ℤ → Option Token → P (Option ℤ)
unfolding advance
add_at operand lhs (some Token.plus) = do
  advance
  rhs ← operand
  v ← or_throw offset_overflow (checked (lhs +ℤ rhs))
  pure (some v)
add_at operand lhs (some Token.minus) = do
  advance
  rhs ← operand
  v ← or_throw offset_overflow (checked (lhs -ℤ rhs))
  pure (some v)
add_at operand lhs _ = pure none

unfoldable pub add_turn : P ℤ → ℤ → P (Option ℤ)
unfolding cur_tok add_at
add_turn operand lhs = do t ← cur_tok; add_at operand lhs t

abbrev pub nonzero : ℤ → Option ℤ
nonzero z = if ==ℤ z (pos 0) then none else some z

unfoldable pub mul_at : P ℤ → ℤ → Option Token → P (Option ℤ)
unfolding advance
mul_at operand lhs (some Token.star) = do
  advance
  rhs ← operand
  v ← or_throw offset_overflow (checked (lhs *ℤ rhs))
  pure (some v)
mul_at operand lhs (some Token.slash) = do
  advance
  rhs ← operand
  d ← or_throw offset_division_by_zero (nonzero rhs)
  v ← or_throw offset_overflow (checked (lhs /ℤ d))
  pure (some v)
mul_at operand lhs _ = pure none

unfoldable pub mul_turn : P ℤ → ℤ → P (Option ℤ)
unfolding cur_tok mul_at
mul_turn operand lhs = do t ← cur_tok; mul_at operand lhs t

-- `loop { match ... { ... _ => break } }` over such turns.
unfoldable pub turn_loop : (ℤ → P (Option ℤ)) → ℕ → ℤ → P ℤ
turn_loop turn zero lhs = throw out_of_fuel
turn_loop turn (suc fuel) lhs = do
  next ← turn lhs
  elim next [ some v ↦ turn_loop turn fuel v | none ↦ pure lhs ]

unfoldable pub parse_offset_mul : P ℤ → P ℤ
unfolding turn_loop mul_turn
parse_offset_mul atom = do lhs ← atom; fuel ← turns; turn_loop (mul_turn atom) fuel lhs

unfoldable pub parse_offset_add : P ℤ → P ℤ
unfolding turn_loop add_turn parse_offset_mul
parse_offset_add atom = do
  lhs ← parse_offset_mul atom
  fuel ← turns
  turn_loop (add_turn (parse_offset_mul atom)) fuel lhs

unfoldable pub parse_offset_shift : P ℤ → P ℤ
unfolding turn_loop shift_turn parse_offset_add
parse_offset_shift atom = do
  lhs ← parse_offset_add atom
  fuel ← turns
  turn_loop (shift_turn (parse_offset_add atom)) fuel lhs

unfoldable pub parse_offset_and : P ℤ → P ℤ
unfolding bit_loop parse_offset_shift
parse_offset_and atom = do
  lhs ← parse_offset_shift atom
  fuel ← turns
  bit_loop Token.amp bit_and (parse_offset_shift atom) fuel lhs

unfoldable pub parse_offset_xor : P ℤ → P ℤ
unfolding bit_loop parse_offset_and
parse_offset_xor atom = do
  lhs ← parse_offset_and atom
  fuel ← turns
  bit_loop Token.caret bit_xor (parse_offset_and atom) fuel lhs

unfoldable pub parse_offset_or : P ℤ → P ℤ
unfolding bit_loop parse_offset_xor
parse_offset_or atom = do
  lhs ← parse_offset_xor atom
  fuel ← turns
  bit_loop Token.pipe bit_or (parse_offset_xor atom) fuel lhs

abbrev pub deepen : ℕ → P (Unit {0})
deepen cost s = ok (tt, record s { depth = s.depth + cost })

abbrev pub check_depth : P (Unit {0})
check_depth s = if ltb max_offset_depth s.depth then err offset_too_deep else ok (tt, s)

abbrev pub rise : ℕ → P (Unit {0})
rise cost s = ok (tt, record s { depth = s.depth - cost })

unfoldable pub nested_offset : ℕ → P ℤ → P ℤ
nested_offset cost f = do deepen cost; check_depth; result ← f; rise cost; pure result

-- The lowest level, given the highest and itself.
unfoldable pub atom_at : P ℤ → P ℤ → Option Token → P ℤ
unfolding advance expect nested_offset parse_u32
atom_at highest atom (some Token.lparen) = do
  advance
  val ← nested_offset offset_paren_cost highest
  expect Token.rparen
  pure val
atom_at highest atom (some Token.minus) = do
  advance
  val ← nested_offset 1 atom
  or_throw offset_overflow (checked (negate val))
atom_at highest atom t = do n ← parse_u32; pure (pos n)

unfoldable pub parse_offset_atom : ℕ → P ℤ
unfolding cur_tok parse_offset_or atom_at
parse_offset_atom zero = throw out_of_fuel
parse_offset_atom (suc fuel) = do
  t ← cur_tok
  atom_at (parse_offset_or (parse_offset_atom fuel)) (parse_offset_atom fuel) t

-- Every level of recursion costs at least 1 of the depth budget.
abbrev pub atom_fuel : ℕ
atom_fuel = max_offset_depth + 1

unfoldable pub parse_offset_expr : P ℤ
unfolding parse_offset_or parse_offset_atom
parse_offset_expr = do
  v ← parse_offset_or (parse_offset_atom atom_fuel)
  if in_range (2 ^ 31) v then pure v else throw (offset_out_of_range v)
