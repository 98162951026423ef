-- ===== src/Lexer/Token.antt =====
-- pktbaffle/src/lexer.rs: the tokens.
-- An `Ipv4` token is its octets and how many were written, an `Ipv6` token its eight segments, an
-- identifier its bytes.
use pktbaffle.Prelude.{ℕ, Bool, true, false, List, [], ◌∷◌, ◌&&◌, ◌==◌}
use pktbaffle.Ast.{MacAddr}

pub data Token : Type 0 where
  and or not src dst host net port port_range ether broadcast multicast : Token
  ip ip6 arp rarp tcp udp icmp icmp6 igmp sctp proto ah : Token
  esp pim igrp vrrp protochain vlan mpls pppoed pppoes inbound outbound len : Token
  mask gateway less greater lparen rparen lbracket rbracket colon minus plus star : Token
  slash percent pipe caret shl shr eq ne lt le gt ge : Token
  amp bang : Token
  num : ℕ → Token
  ipv4 : List ℕ → ℕ → Token
  ipv6 : List ℕ → Token
  mac : MacAddr → Token
  ident : List ℕ → Token

pub record Spanned : Type 0 where
  pub token : Token
  pub offset : ℕ

unfoldable pub bytes_eq : List ℕ → List ℕ → Bool
bytes_eq [] [] = true
bytes_eq (a ∷ xs) (b ∷ ys) = (a == b) && bytes_eq xs ys
bytes_eq _ _ = false

-- The derived equality of tokens: the same variant, and the same payload.
unfoldable pub tag : Token → ℕ
tag Token.and = 0
tag Token.or = 1
tag Token.not = 2
tag Token.src = 3
tag Token.dst = 4
tag Token.host = 5
tag Token.net = 6
tag Token.port = 7
tag Token.port_range = 8
tag Token.ether = 9
tag Token.broadcast = 10
tag Token.multicast = 11
tag Token.ip = 12
tag Token.ip6 = 13
tag Token.arp = 14
tag Token.rarp = 15
tag Token.tcp = 16
tag Token.udp = 17
tag Token.icmp = 18
tag Token.icmp6 = 19
tag Token.igmp = 20
tag Token.sctp = 21
tag Token.proto = 22
tag Token.ah = 23
tag Token.esp = 24
tag Token.pim = 25
tag Token.igrp = 26
tag Token.vrrp = 27
tag Token.protochain = 28
tag Token.vlan = 29
tag Token.mpls = 30
tag Token.pppoed = 31
tag Token.pppoes = 32
tag Token.inbound = 33
tag Token.outbound = 34
tag Token.len = 35
tag Token.mask = 36
tag Token.gateway = 37
tag Token.less = 38
tag Token.greater = 39
tag Token.lparen = 40
tag Token.rparen = 41
tag Token.lbracket = 42
tag Token.rbracket = 43
tag Token.colon = 44
tag Token.minus = 45
tag Token.plus = 46
tag Token.star = 47
tag Token.slash = 48
tag Token.percent = 49
tag Token.pipe = 50
tag Token.caret = 51
tag Token.shl = 52
tag Token.shr = 53
tag Token.eq = 54
tag Token.ne = 55
tag Token.lt = 56
tag Token.le = 57
tag Token.gt = 58
tag Token.ge = 59
tag Token.amp = 60
tag Token.bang = 61
tag (Token.num _) = 62
tag (Token.ipv4 _ _) = 63
tag (Token.ipv6 _) = 64
tag (Token.mac _) = 65
tag (Token.ident _) = 66

unfoldable mac_eq : MacAddr → MacAddr → Bool
mac_eq a b =
    (a.b0 == b.b0)
    && (a.b1 == b.b1)
    && (a.b2 == b.b2)
    && (a.b3 == b.b3)
    && (a.b4 == b.b4)
    && (a.b5 == b.b5)

unfoldable pub payload_eq : Token → Token → Bool
unfolding bytes_eq mac_eq
payload_eq (Token.num a) (Token.num b) = a == b
payload_eq (Token.ipv4 a p) (Token.ipv4 b q) = bytes_eq a b && (p == q)
payload_eq (Token.ipv6 a) (Token.ipv6 b) = bytes_eq a b
payload_eq (Token.mac a) (Token.mac b) = mac_eq a b
payload_eq (Token.ident a) (Token.ident b) = bytes_eq a b
payload_eq _ _ = true

unfoldable pub token_eq : Token → Token → Bool
unfolding tag payload_eq
token_eq a b = (tag a == tag b) && payload_eq a b
