-- ===== src/Lexer/Keyword.antt =====
-- pktbaffle/src/lexer.rs: the keywords and the named constants.
use pktbaffle.Prelude.{ℕ, List, [], ◌∷◌, Option, none, some, if◌then◌else◌}
use pktbaffle.Lexer.Token.{Token, bytes_eq}
use pktbaffle.Lexer.Bytes.{codes}

abbrev pub keywords : List (List ℕ × Token)
keywords =
    (codes "and", Token.and)
    ∷ (codes "or", Token.or)
    ∷ (codes "not", Token.not)
    ∷ (codes "src", Token.src)
    ∷ (codes "dst", Token.dst)
    ∷ (codes "host", Token.host)
    ∷ (codes "net", Token.net)
    ∷ (codes "port", Token.port)
    ∷ (codes "portrange", Token.port_range)
    ∷ (codes "ether", Token.ether)
    ∷ (codes "broadcast", Token.broadcast)
    ∷ (codes "multicast", Token.multicast)
    ∷ (codes "ip", Token.ip)
    ∷ (codes "ip6", Token.ip6)
    ∷ (codes "arp", Token.arp)
    ∷ (codes "rarp", Token.rarp)
    ∷ (codes "tcp", Token.tcp)
    ∷ (codes "udp", Token.udp)
    ∷ (codes "icmp", Token.icmp)
    ∷ (codes "icmp6", Token.icmp6)
    ∷ (codes "igmp", Token.igmp)
    ∷ (codes "sctp", Token.sctp)
    ∷ (codes "proto", Token.proto)
    ∷ (codes "less", Token.less)
    ∷ (codes "greater", Token.greater)
    ∷ (codes "ah", Token.ah)
    ∷ (codes "esp", Token.esp)
    ∷ (codes "pim", Token.pim)
    ∷ (codes "igrp", Token.igrp)
    ∷ (codes "vrrp", Token.vrrp)
    ∷ (codes "vlan", Token.vlan)
    ∷ (codes "mpls", Token.mpls)
    ∷ (codes "pppoed", Token.pppoed)
    ∷ (codes "pppoes", Token.pppoes)
    ∷ (codes "protochain", Token.protochain)
    ∷ (codes "inbound", Token.inbound)
    ∷ (codes "outbound", Token.outbound)
    ∷ (codes "len", Token.len)
    ∷ (codes "mask", Token.mask)
    ∷ (codes "gateway", Token.gateway)
    ∷ (codes "tcpflags", Token.num 13)
    ∷ (codes "icmptype", Token.num 0)
    ∷ (codes "icmpcode", Token.num 1)
    ∷ (codes "icmp6type", Token.num 0)
    ∷ (codes "icmp6code", Token.num 1)
    ∷ (codes "tcp-fin", Token.num 1)
    ∷ (codes "tcp-syn", Token.num 2)
    ∷ (codes "tcp-rst", Token.num 4)
    ∷ (codes "tcp-push", Token.num 8)
    ∷ (codes "tcp-ack", Token.num 16)
    ∷ (codes "tcp-urg", Token.num 32)
    ∷ (codes "tcp-ece", Token.num 64)
    ∷ (codes "tcp-cwr", Token.num 128)
    ∷ (codes "icmp-echoreply", Token.num 0)
    ∷ (codes "icmp-unreach", Token.num 3)
    ∷ (codes "icmp-sourcequench", Token.num 4)
    ∷ (codes "icmp-redirect", Token.num 5)
    ∷ (codes "icmp-echo", Token.num 8)
    ∷ (codes "icmp-routeradvert", Token.num 9)
    ∷ (codes "icmp-routersolicit", Token.num 10)
    ∷ (codes "icmp-timxceed", Token.num 11)
    ∷ (codes "icmp-paramprob", Token.num 12)
    ∷ (codes "icmp-tstamp", Token.num 13)
    ∷ (codes "icmp-tstampreply", Token.num 14)
    ∷ (codes "icmp-ireq", Token.num 15)
    ∷ (codes "icmp-ireqreply", Token.num 16)
    ∷ (codes "icmp-maskreq", Token.num 17)
    ∷ (codes "icmp-maskreply", Token.num 18)
    ∷ []

-- The operators of two characters, and of one; `:` has an arm of its own.
abbrev pub two_characters : List (List ℕ × Token)
two_characters =
    (codes "!=", Token.ne)
    ∷ (codes "<=", Token.le)
    ∷ (codes ">=", Token.ge)
    ∷ (codes "&&", Token.and)
    ∷ (codes "||", Token.or)
    ∷ (codes "<<", Token.shl)
    ∷ (codes ">>", Token.shr)
    ∷ []

abbrev pub one_character : List (List ℕ × Token)
one_character =
    (codes "(", Token.lparen)
    ∷ (codes ")", Token.rparen)
    ∷ (codes "[", Token.lbracket)
    ∷ (codes "]", Token.rbracket)
    ∷ (codes "-", Token.minus)
    ∷ (codes "+", Token.plus)
    ∷ (codes "*", Token.star)
    ∷ (codes "/", Token.slash)
    ∷ (codes "%", Token.percent)
    ∷ (codes "|", Token.pipe)
    ∷ (codes "^", Token.caret)
    ∷ (codes "&", Token.amp)
    ∷ (codes "!", Token.bang)
    ∷ (codes "=", Token.eq)
    ∷ (codes "<", Token.lt)
    ∷ (codes ">", Token.gt)
    ∷ []

-- The first arm of a `match` on a text.
unfoldable pub arm_for : List (List ℕ × Token) → List ℕ → Option Token
unfolding bytes_eq
arm_for [] s = none
arm_for ((word, token) ∷ arms) s =
    let rest = arm_for arms s in if bytes_eq word s then some token else rest

unfoldable pub keyword_or_ident : List ℕ → Token
unfolding arm_for
keyword_or_ident s = elim (arm_for keywords s) [ some t ↦ t | none ↦ Token.ident s ]
