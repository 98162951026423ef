-- ===== src/Parser/Exact.antt =====
-- pktbaffle/src/parser.rs: the tokens that the parser compares without a payload.
use pktbaffle.Prelude.{◌≡◌, refl, ap, true, Option, some, none, arith}
use pktbaffle.Lexer.Token.{Token, token_eq, tag, payload_eq}
use pktbaffle.Parser.Base.{is_token}

-- Tokens without a payload are told apart.
abbrev pub Exact : Token → Type 0
Exact t = (x : Token) → token_eq x t ≡ true → x ≡ t

pub not-Exact : Exact Token.not
unfolding token_eq tag payload_eq
not-Exact Token.not h = refl
not-Exact _ h = absurd (ground arith)

pub bang-Exact : Exact Token.bang
unfolding token_eq tag payload_eq
bang-Exact Token.bang h = refl
bang-Exact _ h = absurd (ground arith)

pub lparen-Exact : Exact Token.lparen
unfolding token_eq tag payload_eq
lparen-Exact Token.lparen h = refl
lparen-Exact _ h = absurd (ground arith)

pub rparen-Exact : Exact Token.rparen
unfolding token_eq tag payload_eq
rparen-Exact Token.rparen h = refl
rparen-Exact _ h = absurd (ground arith)

pub and-Exact : Exact Token.and
unfolding token_eq tag payload_eq
and-Exact Token.and h = refl
and-Exact _ h = absurd (ground arith)

pub or-Exact : Exact Token.or
unfolding token_eq tag payload_eq
or-Exact Token.or h = refl
or-Exact _ h = absurd (ground arith)

pub is_token-Exact : (t : Token) (o : Option Token) → Exact t → is_token t o ≡ true → o ≡ some t
is_token-Exact t (some x) h e = ap some (h x e)
is_token-Exact t none h e = absurd (ground arith)
