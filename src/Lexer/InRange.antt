-- ===== src/Lexer/InRange.antt =====
-- pktbaffle/src/lexer.rs: the ranges of the numbers in a token, which its types and the lexer promise.
use pktbaffle.Prelude.{ℕ, ◌^◌, Bool, true, false, List, [], ◌∷◌, ◌&&◌, ltb, leb}
use pktbaffle.Codegen.Sane.Addr.{fits_ip6}
use pktbaffle.Codegen.Sane.Link.{fits_mac}
use pktbaffle.Lexer.Token.{Token, Spanned}

abbrev pub four_octets : List ℕ → Bool
four_octets (a ∷ b ∷ c ∷ d ∷ []) = ltb a 256 && ltb b 256 && ltb c 256 && ltb d 256
four_octets _ = false

-- A number has 32 bits, and a dotted address four octets of which two to four were written.
unfoldable pub in_range : Token → Bool
in_range (Token.num n) = ltb n (2 ^ 32)
in_range (Token.ipv4 octs parts) = four_octets octs && leb 2 parts && leb parts 4
in_range (Token.ipv6 segs) = fits_ip6 segs
in_range (Token.mac m) = fits_mac m
in_range _ = true

unfoldable pub all_in_range : List Spanned → Bool
unfolding in_range
all_in_range [] = true
all_in_range (x ∷ xs) = in_range x.token && all_in_range xs
