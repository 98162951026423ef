-- ===== src/Parser/Tests.antt =====
-- pktbaffle/src/parser.rs: runs of the parser on concrete tokens.
use pktbaffle.Prelude.{◌*◌, ◌<◌, List, [], ◌∷◌, none, ◌≡◌, refl, map, true, length}
use pktbaffle.Ast
use pktbaffle.Ast.{Expr, Primitive, port, src_or_dst, byte_access, raw, half, const, src}
use pktbaffle.Ast.Tree.{size}
use pktbaffle.Parser.Bounded.{bounded}
use pktbaffle.Lexer.Token.{Token, Spanned}
use pktbaffle.Lexer.InRange.{in_range, all_in_range}
use pktbaffle.Parser.Base.{ok, err, negative_offset}
use pktbaffle.Parser.Level.{parse}
use pktbaffle.Parser.Progress.{AllInRange, all_in_range-AllInRange}
use pktbaffle.Parser.Sound.{Verdict, parse-Verdict, parse-bounded}
use pktbaffle.Prelude.Ints.{negsuc}

abbrev unplaced : Token → Spanned
unplaced t = record { token = t; offset = 0 }

-- `not (port 80 or src 10.1) ip`.
abbrev nested_filter : List Spanned
nested_filter = map unplaced (
    Token.not
    ∷ Token.lparen
    ∷ Token.port
    ∷ Token.num 80
    ∷ Token.or
    ∷ Token.src
    ∷ Token.ipv4 (10 ∷ 1 ∷ 0 ∷ 0 ∷ []) 2
    ∷ Token.rparen
    ∷ Token.ip
    ∷ [])

abbrev nested_tree : Expr
nested_tree =
    Expr.and
      (Expr.not (
        Expr.or (Expr.primitive (port 80 src_or_dst none))
          (Expr.primitive (Primitive.net (record { addr = 0x0a010000; mask = 0xffff0000 }) src))))
      (Expr.primitive (Primitive.proto Ast.Proto.ip))

nested_filter-parse : parse nested_filter ≡ ok nested_tree
unfolding parse
nested_filter-parse = refl

nested_filter-AllInRange : AllInRange nested_filter
unfolding all_in_range in_range
nested_filter-AllInRange = all_in_range-AllInRange nested_filter refl

parse-Verdict_example : Verdict nested_filter (parse nested_filter)
parse-Verdict_example = parse-Verdict nested_filter nested_filter-AllInRange

parse-bounded_example : (bounded nested_tree ≡ true) × (size nested_tree < 2 * length nested_filter)
parse-bounded_example =
    parse-bounded nested_filter nested_tree nested_filter-AllInRange nested_filter-parse

-- `[-(1 - 8) * (2 + 1) : 2] = 7`: the offset is 21.
access_filter-parse :
    parse (
      map unplaced (
        Token.lbracket
        ∷ Token.minus
        ∷ Token.lparen
        ∷ Token.num 1
        ∷ Token.minus
        ∷ Token.num 8
        ∷ Token.rparen
        ∷ Token.star
        ∷ Token.lparen
        ∷ Token.num 2
        ∷ Token.plus
        ∷ Token.num 1
        ∷ Token.rparen
        ∷ Token.colon
        ∷ Token.num 2
        ∷ Token.rbracket
        ∷ Token.eq
        ∷ Token.num 7
        ∷ []))
    ≡ ok (
        Expr.primitive (
          byte_access (record {
            layer = raw;
            offset = 21;
            size = half;
            alu_ops = [];
            op = Ast.CmpOp.eq;
            rhs = const 7;
          })))
unfolding parse
access_filter-parse = refl

negative_filter-parse :
    parse (
      map unplaced (Token.lbracket ∷ Token.num 1 ∷ Token.minus ∷ Token.num 3 ∷ Token.rbracket ∷ []))
    ≡ err (negative_offset (negsuc 1))
unfolding parse
negative_filter-parse = refl
