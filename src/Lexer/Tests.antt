-- ===== src/Lexer/Tests.antt =====
-- pktbaffle/src/lexer.rs: the lexer at concrete filters.
use pktbaffle.Prelude.{ℕ, [], ◌∷◌, ◌≡◌, refl}
use pktbaffle.Lexer.Token.{Token, Spanned}
use pktbaffle.Lexer.Bytes.{codes}
use pktbaffle.Lexer.Literal.{ok, err, invalid_number, non_octal_digit}
use pktbaffle.Lexer.Scan.{lex}
use pktbaffle.Lexer.Scanned.{Scanned, lex-Scanned}

abbrev at : ℕ → Token → Spanned
at o t = record { token = t; offset = o }

port_filter-lex :
    lex (codes "tcp port 0x50&&ip")
    ≡ ok (
        at 0 Token.tcp
        ∷ at 4 Token.port
        ∷ at 9 (Token.num 80)
        ∷ at 13 Token.and
        ∷ at 15 Token.ip
        ∷ [])
unfolding lex
port_filter-lex = refl

address_filter-lex :
    lex (codes "10.1 2001:db8::1 00:11:22:aa:bb:cc ::ffff:1.2.3.4")
    ≡ ok (
        at 0 (Token.ipv4 (10 ∷ 1 ∷ 0 ∷ 0 ∷ []) 2)
        ∷ at 5 (Token.ipv6 (0x2001 ∷ 0xdb8 ∷ 0 ∷ 0 ∷ 0 ∷ 0 ∷ 0 ∷ 1 ∷ []))
        ∷ at 17
            (Token.mac (record { b0 = 0; b1 = 0x11; b2 = 0x22; b3 = 0xaa; b4 = 0xbb; b5 = 0xcc }))
        ∷ at 35 (Token.ipv6 (0 ∷ 0 ∷ 0 ∷ 0 ∷ 0 ∷ 0xffff ∷ 0x0102 ∷ 0x0304 ∷ []))
        ∷ [])
unfolding lex
address_filter-lex = refl

faults-lex : lex (codes "port 08") ≡ err (invalid_number (codes "08") 5 non_octal_digit)
unfolding lex
faults-lex = refl

lex-Scanned_example : Scanned 0 4 (lex (codes "ip &"))
lex-Scanned_example = lex-Scanned (codes "ip &")
