-- ===== src/Parser/Progress/Keyword.antt =====
-- pktbaffle/src/parser.rs: a primitive takes a token at least, and its numbers fit their types.
use pktbaffle.Prelude.{ℕ, suc, ◌^◌, ◌≡◌, refl, List, Option, some, none, arith, ltb}
use pktbaffle.Ast.{
  Proto, Primitive, Layer, raw, trans, src_or_dst, proto, ether_host, dst, ether_multicast, num,
  pppoe_discovery, inbound, outbound,
}
use pktbaffle.Codegen.Sane.Guards.{fits_primitive}
use pktbaffle.Parser.Bounded.{bounded_primitive}
use pktbaffle.Lexer.Token.{Token, Spanned}
use pktbaffle.Parser.Base.{Parser, token_at, cur_tok, pure}
use pktbaffle.Parser.Primitive.{broadcast_addr, port_or, ip_rest, ip6_rest}
use pktbaffle.Parser.Keyword.{bare, bare_address, primitive_at, other_at, parse_primitive}
use pktbaffle.Parser.Progress.{
  AllInRange, Inv, Post, done, failed, Steps, bind-Post, back, loosen, advance-Post, if-Post,
  on-Taken, advance-Taken, parse_u32-Post,
}
use pktbaffle.Parser.Progress.Access.{parse_byte_access-Post, parse_cmpop-Post}
use pktbaffle.Parser.Progress.Net.{
  parse_host-Post, parse_net-Post, parse_port-Post, parse_portrange-Post,
}
use pktbaffle.Parser.Progress.Primitive.{
  Fits, Rests, parse_dir-Post, port_or-Post, parse_after_dir-Post,
}
use pktbaffle.Parser.Progress.Ether.{
  access_or-Post, parse_ether_prim-Post, ip_rest-Post, ip6_rest-Post, optional_num-Post,
  session_id-Post,
}

bare-Post :
    {ts : List Spanned} {p : ℕ} {s : Parser} {t : Token} (x : Primitive)
    → Fits x
    → token_at s.tokens s.pos ≡ some t
    → Inv ts 0 p s
    → Post ts 0 (suc p) Fits (bare x s)
unfolding bare
bare-Post x f e i = bind-Post (advance-Post i e) (λ _ s1 j _. done j f)

bare_address-Post :
    {ts : List Spanned} {p : ℕ} {s : Parser} (parts : ℕ)
    → AllInRange ts
    → Inv ts 0 p s
    → Post ts 0 (suc p) Fits (bare_address parts s)
unfolding bare_address
bare_address-Post {s = s} parts fit i =
    if-Post {s = s} (ltb parts 4) _ _ (λ _. failed refl) (λ _. parse_host-Post src_or_dst fit i)

-- A primitive that is already known, with or without a port.
known-Rests : {ts : List Spanned} (x : Primitive) → Fits x → Rests ts Fits (pure x)
known-Rests x f s p i = done i f

-- `gateway` is refused after the token that follows it, if there is one.
gateway-Post :
    {ts : List Spanned} {p : ℕ} {s : Parser} {t : Token}
    → AllInRange ts
    → token_at s.tokens s.pos ≡ some t
    → Inv ts 0 p s
    → Post ts 0 (suc p) Fits (other_at (some Token.gateway) s)
unfolding other_at
gateway-Post fit e i =
    bind-Post (advance-Post i e)
      (λ _ s1 j _. on-Taken _ (advance-Taken fit j) (λ t s2 g k. failed refl) (λ s2. failed refl))

other_at-Post :
    {ts : List Spanned} {p : ℕ} {s : Parser} (t : Option Token)
    → AllInRange ts
    → token_at s.tokens s.pos ≡ t
    → Inv ts 0 p s
    → Post ts 0 (suc p) Fits (other_at t s)
unfolding other_at bounded_primitive fits_primitive
other_at-Post (some Token.vlan) fit e i =
    bind-Post (advance-Post i e)
      (λ _ s1 j _. bind-Post (optional_num-Post (2 ^ 16) (omega arith) j) (λ o s2 k f. done k f))
other_at-Post (some Token.mpls) fit e i =
    bind-Post (advance-Post i e)
      (λ _ s1 j _. bind-Post (optional_num-Post (2 ^ 32) (omega arith) j) (λ o s2 k f. done k f))
other_at-Post (some Token.pppoed) fit e i = bare-Post (pppoe_discovery) refl e i
other_at-Post (some Token.pppoes) fit e i =
    bind-Post (advance-Post i e) (λ _ s1 j _. bind-Post (session_id-Post j) (λ o s2 k f. done k f))
other_at-Post (some Token.inbound) fit e i = bare-Post (inbound) refl e i
other_at-Post (some Token.outbound) fit e i = bare-Post (outbound) refl e i
other_at-Post (some Token.gateway) fit e i = gateway-Post fit e i
other_at-Post (some Token.ether) fit e i = parse_ether_prim-Post fit e i
other_at-Post (some Token.src) fit e i =
    bind-Post (parse_dir-Post i) (λ dir s1 j _. parse_after_dir-Post dir fit j)
other_at-Post (some Token.dst) fit e i =
    bind-Post (parse_dir-Post i) (λ dir s1 j _. parse_after_dir-Post dir fit j)
other_at-Post (some Token.host) fit e i =
    bind-Post (advance-Post i e)
      (λ _ s1 j _. loosen (omega arith) (λ a x. x) (parse_host-Post src_or_dst fit j))
other_at-Post (some Token.net) fit e i =
    bind-Post (advance-Post i e)
      (λ _ s1 j _. loosen (omega arith) (λ a x. x) (parse_net-Post src_or_dst fit j))
other_at-Post (some Token.port) fit e i =
    bind-Post (advance-Post i e)
      (λ _ s1 j _. loosen (omega arith) (λ a x. x) (parse_port-Post src_or_dst none refl fit j))
other_at-Post (some Token.port_range) fit e i =
    bind-Post (advance-Post i e) (λ _ s1 j _.
      loosen (omega arith) (λ a x. x) (parse_portrange-Post src_or_dst none refl fit j))
other_at-Post (some (Token.ipv4 _ parts)) fit e i = bare_address-Post parts fit i
other_at-Post (some (Token.ipv6 _)) fit e i = parse_host-Post src_or_dst fit i
other_at-Post (some Token.lbracket) fit e i = parse_byte_access-Post raw fit _ _ i
other_at-Post none fit e i = failed refl
other_at-Post (some _) fit e i = failed refl

primitive_at-Post :
    {ts : List Spanned} {p : ℕ} {s : Parser} (t : Option Token)
    → AllInRange ts
    → token_at s.tokens s.pos ≡ t
    → Inv ts 0 p s
    → Post ts 0 (suc p) Fits (primitive_at t s)
unfolding primitive_at other_at bounded_primitive fits_primitive
primitive_at-Post (some Token.less) fit e i = bind-Post (advance-Post i e) (λ _ s1 j _.
    bind-Post (parse_u32-Post fit j) (λ n s2 k small. done (back (omega arith) k) (ground arith)))
primitive_at-Post (some Token.greater) fit e i = bind-Post (advance-Post i e) (λ _ s1 j _.
    bind-Post (parse_u32-Post fit j) (λ n s2 k small. done (back (omega arith) k) (ground arith)))
primitive_at-Post (some Token.len) fit e i = bind-Post (advance-Post i e) (λ _ s1 j _.
    bind-Post (parse_cmpop-Post fit j) (λ op s2 k _.
      bind-Post (parse_u32-Post fit k)
        (λ n s3 l small. done (back (omega arith) l) (ground arith))))
primitive_at-Post (some Token.broadcast) fit e i =
    bare-Post (ether_host broadcast_addr dst) refl e i
primitive_at-Post (some Token.multicast) fit e i = bare-Post (ether_multicast) refl e i
primitive_at-Post (some Token.ip) fit e i =
    access_or-Post Layer.net ip_rest fit (ip_rest-Post fit) e i
primitive_at-Post (some Token.ip6) fit e i =
    access_or-Post Layer.net ip6_rest fit (ip6_rest-Post fit) e i
primitive_at-Post (some Token.arp) fit e i = bare-Post (proto Proto.arp) refl e i
primitive_at-Post (some Token.rarp) fit e i = bare-Post (proto Proto.rarp) refl e i
primitive_at-Post (some Token.icmp) fit e i =
    access_or-Post trans (pure (proto Proto.icmp)) fit (known-Rests (proto Proto.icmp) refl) e i
primitive_at-Post (some Token.icmp6) fit e i =
    access_or-Post trans (pure (proto Proto.icmp6)) fit (known-Rests (proto Proto.icmp6) refl) e i
primitive_at-Post (some Token.igmp) fit e i = bare-Post (proto Proto.igmp) refl e i
primitive_at-Post (some Token.sctp) fit e i = bind-Post (advance-Post i e) (λ _ s1 j _.
    port_or-Post src_or_dst Proto.sctp (pure (proto Proto.sctp)) refl fit
      (known-Rests (proto Proto.sctp) refl) s1 _ j)
primitive_at-Post (some Token.tcp) fit e i =
    access_or-Post trans (port_or src_or_dst Proto.tcp (pure (proto Proto.tcp))) fit
      (port_or-Post src_or_dst Proto.tcp (pure (proto Proto.tcp)) refl fit
        (known-Rests (proto Proto.tcp) refl))
      e i
primitive_at-Post (some Token.udp) fit e i =
    access_or-Post trans (port_or src_or_dst Proto.udp (pure (proto Proto.udp))) fit
      (port_or-Post src_or_dst Proto.udp (pure (proto Proto.udp)) refl fit
        (known-Rests (proto Proto.udp) refl))
      e i
primitive_at-Post (some Token.proto) fit e i = bind-Post (advance-Post i e) (λ _ s1 j _.
    bind-Post (parse_u32-Post fit j) (λ n s2 k small. done (back (omega arith) k) (ground arith)))
primitive_at-Post (some Token.ah) fit e i = bare-Post (proto (num 51)) refl e i
primitive_at-Post (some Token.esp) fit e i = bare-Post (proto (num 50)) refl e i
primitive_at-Post (some Token.pim) fit e i = bare-Post (proto (num 103)) refl e i
primitive_at-Post (some Token.igrp) fit e i = bare-Post (proto (num 9)) refl e i
primitive_at-Post (some Token.vrrp) fit e i = bare-Post (proto (num 112)) refl e i
primitive_at-Post none fit e i = failed refl
primitive_at-Post (some _) fit e i = other_at-Post (some _) fit e i

pub parse_primitive-Post : {ts : List Spanned} → AllInRange ts → Steps ts 0 Fits parse_primitive
unfolding parse_primitive cur_tok
parse_primitive-Post fit s p i = primitive_at-Post (token_at s.tokens s.pos) fit refl i
