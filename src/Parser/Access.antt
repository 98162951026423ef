-- ===== src/Parser/Access.antt =====
-- pktbaffle/src/parser.rs: byte access, `layer[offset:size] op value`.
use pktbaffle.Prelude.{
  ℕ, zero, suc, true, false, List, [], ◌∷◌, ◌++◌, Option, some, none, if◌then◌else◌, ◌==◌,
}
use pktbaffle.Prelude.Ints.{ℤ, pos, negsuc}
use pktbaffle.Ast.{
  ArithOp, CmpOp, AccessSize, Layer, ByteLoad, CmpRhs, Primitive, byte, half, word, raw, trans,
  const, load, byte_access,
}
use pktbaffle.Lexer.Token.{Token, token_eq}
use pktbaffle.Parser.Base.{
  P, is_token, ◌>>=◌, ◌>>◌, pure, throw, cur_tok, peek_tok, eat, advance, expect, turns, parse_u32,
  out_of_fuel, negative_offset, invalid_size, expected_cmpop,
}
use pktbaffle.Parser.Offset.{parse_offset_expr}

-- The offset in its bits: it is not negative.
abbrev pub non_negative : ℤ → P ℕ
non_negative (pos n) = pure n
non_negative (negsuc n) = throw (negative_offset (negsuc n))

abbrev pub size_of : Option Token → Option AccessSize
size_of (some (Token.num n)) =
    if n == 1
    then some byte
    else (if n == 2 then some half else (if n == 4 then some word else none))
size_of _ = none

-- `:size`, or one byte.
unfoldable pub parse_size : P AccessSize
unfolding eat cur_tok advance
parse_size = do
  colon ← eat Token.colon
  elim colon [
    | true ↦ do
      t ← cur_tok
      elim (size_of t) [ some size ↦ do advance; pure size | none ↦ throw (invalid_size t) ]
    | false ↦ pure byte
  ]

unfoldable pub parse_byte_load : Layer → P ByteLoad
unfolding expect parse_offset_expr parse_size
parse_byte_load layer = do
  expect Token.lbracket
  z ← parse_offset_expr
  offset ← non_negative z
  size ← parse_size
  expect Token.rbracket
  pure (record { layer = layer; offset = offset; size = size })

abbrev pub arith_op : Option Token → Option ArithOp
arith_op (some Token.amp) = some ArithOp.and
arith_op (some Token.pipe) = some ArithOp.or
arith_op (some Token.caret) = some ArithOp.xor
arith_op (some Token.plus) = some ArithOp.add
arith_op (some Token.minus) = some ArithOp.sub
arith_op (some Token.star) = some ArithOp.mul
arith_op (some Token.slash) = some ArithOp.div
arith_op (some Token.percent) = some ArithOp.modulo
arith_op (some Token.shl) = some ArithOp.shl
arith_op (some Token.shr) = some ArithOp.shr
arith_op _ = none

-- The loop over the operators applied to the loaded value.
unfoldable pub alu_loop : ℕ → List (ArithOp × ℕ) → P (List (ArithOp × ℕ))
unfolding cur_tok advance parse_u32
alu_loop zero alu_ops = throw out_of_fuel
alu_loop (suc fuel) alu_ops = do
  t ← cur_tok
  elim (arith_op t) [
    | some aop ↦ do advance; operand ← parse_u32; alu_loop fuel (alu_ops ++ ((aop, operand) ∷ []))
    | none ↦ pure alu_ops
  ]

abbrev pub cmp_op : Option Token → P CmpOp
cmp_op (some Token.eq) = pure CmpOp.eq
cmp_op (some Token.ne) = pure CmpOp.ne
cmp_op (some Token.lt) = pure CmpOp.lt
cmp_op (some Token.le) = pure CmpOp.le
cmp_op (some Token.gt) = pure CmpOp.gt
cmp_op (some Token.ge) = pure CmpOp.ge
cmp_op (some Token.amp) = pure CmpOp.bit_and
cmp_op t = throw (expected_cmpop t)

unfoldable pub parse_cmpop : P CmpOp
unfolding advance
parse_cmpop = do t ← advance; cmp_op t

abbrev pub rhs_layer : Option Token → Option Layer
rhs_layer (some Token.tcp) = some trans
rhs_layer (some Token.udp) = some trans
rhs_layer (some Token.icmp) = some trans
rhs_layer (some Token.icmp6) = some trans
rhs_layer (some Token.ip) = some Layer.net
rhs_layer (some Token.ip6) = some Layer.net
rhs_layer (some Token.ether) = some raw
rhs_layer _ = none

unfoldable pub parse_cmp_rhs : P CmpRhs
unfolding cur_tok peek_tok advance parse_byte_load parse_u32 token_eq
parse_cmp_rhs = do
  t ← cur_tok
  next ← peek_tok 1
  elim (rhs_layer t) [
    | some layer ↦ elim (is_token Token.lbracket next) [
      | true ↦ do advance; l ← parse_byte_load layer; pure (load l)
      | false ↦ do n ← parse_u32; pure (const n)
    ]
    | none ↦ do n ← parse_u32; pure (const n)
  ]

unfoldable pub parse_byte_access : Layer → P Primitive
unfolding expect parse_offset_expr parse_size alu_loop parse_cmpop parse_cmp_rhs
parse_byte_access layer = do
  expect Token.lbracket
  z ← parse_offset_expr
  offset ← non_negative z
  size ← parse_size
  expect Token.rbracket
  fuel ← turns
  alu_ops ← alu_loop fuel []
  op ← parse_cmpop
  rhs ← parse_cmp_rhs
  pure (
      byte_access (record {
        layer = layer;
        offset = offset;
        size = size;
        alu_ops = alu_ops;
        op = op;
        rhs = rhs;
      }))
