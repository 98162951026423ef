-- ===== src/Parser/Bounded.antt =====
-- pktbaffle/src/parser.rs: the ranges of the numbers in a parsed expression.
use pktbaffle.Prelude.{
  and-both, and-left, and-right, ◌^◌, ◌≡◌, Bool, true, false, ◌&&◌, ltb, leb, Option, none, some,
}
use pktbaffle.Ast.{Expr, Primitive, Proto, tcp, udp, sctp, port, port_range, net6}
use pktbaffle.Codegen.Sane.Addr.{fits_ip6}
use pktbaffle.Codegen.Sane.Guards.{fits, fits_primitive}

-- The protocols that the grammar lets stand before `port` and `portrange`.
abbrev pub before_port : Option Proto → Bool
before_port none = true
before_port (some tcp) = true
before_port (some udp) = true
before_port (some sctp) = true
before_port (some _) = false

-- Every number fits the type of its field, a prefix length of an IPv6 network is at most 128, and a port
-- has no protocol other than TCP, UDP and SCTP.
unfoldable pub bounded_primitive : Primitive → Bool
bounded_primitive (net6 n _) = fits_ip6 n.addr && leb n.prefix_len 128
bounded_primitive (port k _ p) = ltb k (2 ^ 16) && before_port p
bounded_primitive (port_range lo hi _ p) = ltb lo (2 ^ 16) && ltb hi (2 ^ 16) && before_port p
bounded_primitive p = fits_primitive p

unfoldable pub bounded : Expr → Bool
bounded (Expr.and l r) = bounded l && bounded r
bounded (Expr.or l r) = bounded l && bounded r
bounded (Expr.not e) = bounded e
bounded (Expr.primitive p) = bounded_primitive p

bounded_primitive-fits : (p : Primitive) → bounded_primitive p ≡ true → fits_primitive p ≡ true
unfolding bounded_primitive fits_primitive
bounded_primitive-fits (net6 n _) h = and-left (fits_ip6 n.addr) (leb n.prefix_len 128) h
bounded_primitive-fits (port k _ p) h = and-left (ltb k (2 ^ 16)) (before_port p) h
bounded_primitive-fits (port_range lo hi _ p) h =
    and-left (ltb lo (2 ^ 16) && ltb hi (2 ^ 16)) (before_port p) h
bounded_primitive-fits _ h = h

pub bounded-fits : (e : Expr) → bounded e ≡ true → fits e ≡ true
unfolding bounded fits
bounded-fits (Expr.and l r) h =
    and-both (fits l) (fits r) (bounded-fits l (and-left (bounded l) (bounded r) h))
      (bounded-fits r (and-right (bounded l) (bounded r) h))
bounded-fits (Expr.or l r) h =
    and-both (fits l) (fits r) (bounded-fits l (and-left (bounded l) (bounded r) h))
      (bounded-fits r (and-right (bounded l) (bounded r) h))
bounded-fits (Expr.not e) h = bounded-fits e h
bounded-fits (Expr.primitive p) h = bounded_primitive-fits p h
