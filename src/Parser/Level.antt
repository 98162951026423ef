-- ===== src/Parser/Level.antt =====
-- pktbaffle/src/parser.rs: `parse_expr`, the loop over an explicit stack of open parentheses, and
-- `parse`. The stack is a list with its top in front.
use pktbaffle.Prelude.{
  ℕ, zero, suc, Bool, true, false, List, [], ◌∷◌, Option, some, none, ltb, length, ◌==◌,
  if◌then◌else◌,
}
use pktbaffle.Ast.{Expr}
use pktbaffle.Lexer.Token.{Token, Spanned}
use pktbaffle.Parser.Base.{
  P, Parser, Result, ◌>>=◌, ◌>>◌, pure, throw, cur_tok, eat, expect, turns, ok, err,
  max_paren_depth, nested_too_deeply, trailing_input, out_of_fuel,
}
use pktbaffle.Parser.Keyword.{parse_primitive}

-- A level suspended at a `(`: what it had folded so far, with true for `or`, and the `!`s before.
pub record Open : Type 0 where
  pub left : Option (Expr × Bool)
  pub nots : ℕ

abbrev pub starts_primitive : Option Token → Bool
starts_primitive (some Token.not) = true
starts_primitive (some Token.bang) = true
starts_primitive (some Token.lparen) = true
starts_primitive (some Token.src) = true
starts_primitive (some Token.dst) = true
starts_primitive (some Token.host) = true
starts_primitive (some Token.net) = true
starts_primitive (some Token.port) = true
starts_primitive (some Token.port_range) = true
starts_primitive (some Token.ether) = true
starts_primitive (some Token.broadcast) = true
starts_primitive (some Token.multicast) = true
starts_primitive (some Token.ip) = true
starts_primitive (some Token.ip6) = true
starts_primitive (some Token.arp) = true
starts_primitive (some Token.rarp) = true
starts_primitive (some Token.tcp) = true
starts_primitive (some Token.udp) = true
starts_primitive (some Token.icmp) = true
starts_primitive (some Token.icmp6) = true
starts_primitive (some Token.igmp) = true
starts_primitive (some Token.sctp) = true
starts_primitive (some Token.proto) = true
starts_primitive (some Token.ah) = true
starts_primitive (some Token.esp) = true
starts_primitive (some Token.pim) = true
starts_primitive (some Token.igrp) = true
starts_primitive (some Token.vrrp) = true
starts_primitive (some Token.vlan) = true
starts_primitive (some Token.mpls) = true
starts_primitive (some Token.pppoed) = true
starts_primitive (some Token.pppoes) = true
starts_primitive (some Token.inbound) = true
starts_primitive (some Token.outbound) = true
starts_primitive (some Token.len) = true
starts_primitive (some Token.less) = true
starts_primitive (some Token.greater) = true
starts_primitive (some Token.gateway) = true
starts_primitive (some (Token.ipv4 _ _)) = true
starts_primitive (some (Token.ipv6 _)) = true
starts_primitive (some (Token.num _)) = true
starts_primitive (some Token.lbracket) = true
starts_primitive _ = false

unfoldable pub looks_like_primitive_start : P Bool
unfolding cur_tok
looks_like_primitive_start = do t ← cur_tok; pure (starts_primitive t)

-- The operator after an operand: true for `or`, false for `and` or juxtaposition.
unfoldable pub parse_logical_op : P (Option Bool)
unfolding eat looks_like_primitive_start
parse_logical_op = do
  is_or ← eat Token.or
  elim is_or [
    | true ↦ pure (some true)
    | false ↦ do
      is_and ← eat Token.and
      elim is_and [
        | true ↦ pure (some false)
        | false ↦ do starts ← looks_like_primitive_start; pure (if starts then some false else none)
      ]
  ]

-- `self.eat(&Token::Not) || self.eat(&Token::Bang)`.
unfoldable pub eat_not : P Bool
unfolding eat
eat_not = do found ← eat Token.not; elim found [ true ↦ pure true | false ↦ eat Token.bang ]

unfoldable pub count_nots : ℕ → ℕ → P ℕ
unfolding eat_not
count_nots zero nots = throw out_of_fuel
count_nots (suc fuel) nots = do
  found ← eat_not
  elim found [ true ↦ count_nots fuel (suc nots) | false ↦ pure nots ]

unfoldable pub apply_nots : ℕ → Expr → Expr
apply_nots zero e = e
apply_nots (suc n) e = apply_nots n (Expr.not e)

abbrev pub join : Option (Expr × Bool) → Expr → Expr
join none e = e
join (some (l, true)) e = Expr.or l e
join (some (l, false)) e = Expr.and l e

-- An operand folded into its level: the level goes on, or the whole expression is complete.
pub data Folded : Type 0 where
  again : Expr × Bool → List Open → Folded
  complete : Expr → Folded

-- The inner loop. If no operator follows, the level is complete: its `)` closes it, and it is an
-- operand of the level around it.
unfoldable pub fold_operand : List Open → Expr → ℕ → Option (Expr × Bool) → P Folded
unfolding parse_logical_op expect apply_nots
fold_operand [] operand nots left = do
  op ← parse_logical_op
  elim op [
    | some is_or ↦ pure (again (join left (apply_nots nots operand), is_or) [])
    | none ↦ pure (complete (join left (apply_nots nots operand)))
  ]
fold_operand (outer ∷ levels) operand nots left = do
  op ← parse_logical_op
  elim op [
    | some is_or ↦ pure (again (join left (apply_nots nots operand), is_or) (outer ∷ levels))
    | none ↦ do
      expect Token.rparen
      fold_operand levels (join left (apply_nots nots operand)) outer.nots outer.left
  ]

-- The outer loop: one operand in every turn.
unfoldable pub expr_loop : ℕ → List Open → Option (Expr × Bool) → P Expr
unfolding count_nots eat parse_primitive fold_operand
expr_loop zero levels left = throw out_of_fuel
expr_loop (suc fuel) levels left = do
  limit ← turns
  nots ← count_nots limit 0
  paren ← eat Token.lparen
  elim paren [
    | true ↦ elim (length levels == max_paren_depth) [
      | true ↦ throw nested_too_deeply
      | false ↦ expr_loop fuel (record { left = left; nots = nots } ∷ levels) none
    ]
    | false ↦ do
      p ← parse_primitive
      folded ← fold_operand levels (Expr.primitive p) nots left
      elim folded [ again next rest ↦ expr_loop fuel rest (some next) | complete e ↦ pure e ]
  ]

unfoldable pub parse_expr : P Expr
unfolding expr_loop
parse_expr = do fuel ← turns; expr_loop fuel [] none

-- Nothing may follow the expression.
abbrev pub at_end : Expr → Parser → Result Expr
at_end e s =
    if ltb s.pos (length s.tokens)
    then err (trailing_input (elim (cur_tok s) [ ok (t, _) ↦ t | err _ ↦ none ]))
    else ok e

unfoldable pub parse : List Spanned → Result Expr
unfolding parse_expr cur_tok
parse tokens = elim (parse_expr (record { tokens = tokens; pos = 0; depth = 0 })) [
  | ok (e, s) ↦ at_end e s
  | err e ↦ err e
]
