-- ===== src/Parser/Progress/Ether.antt =====
-- pktbaffle/src/parser.rs: what follows `ether`, `ip`, `ip6`, `vlan`, `mpls` and `pppoes`.
use pktbaffle.Prelude.{ℕ, suc, ◌<◌, ◌^◌, ◌≡◌, refl, true, List, Option, some, none, arith, ltb}
use pktbaffle.Ast.{Dir, Primitive, Layer, raw}
use pktbaffle.Codegen.Sane.Guards.{fits_primitive}
use pktbaffle.Parser.Bounded.{bounded_primitive}
use pktbaffle.Codegen.Sane.Link.{fits_option}
use pktbaffle.Lexer.Token.{Token, Spanned}
use pktbaffle.Parser.Base.{P, Parser, token_at, is_token, cur_is, cur_tok, ◌>>=◌}
use pktbaffle.Parser.Primitive.{
  parse_dir, named_ethertype, parse_ethertype, ether_at, access_or, parse_ether_prim, ip_rest,
  ip6_rest, num_at, optional_num, session_at, session_id,
}
use pktbaffle.Parser.Progress.{
  AllInRange, Inv, Post, done, failed, bind-Post, back, loosen, advance-Post, eat-Eaten, on-Eaten,
  if-Post, bool-Post, option-Post, parse_u32-Post, choice-some,
}
use pktbaffle.Parser.Progress.Access.{parse_byte_access-Post}
use pktbaffle.Parser.Progress.Address.{parse_mac-Post, parse_proto_num-Post}
use pktbaffle.Parser.Progress.Primitive.{Fits, Rests, parse_dir-Post}

named_ethertype-small : (t : Option Token) (n : ℕ) → named_ethertype t ≡ some n → n < 2 ^ 16
named_ethertype-small none n e = absurd (ground arith)
named_ethertype-small (some Token.and) n e = absurd (ground arith)
named_ethertype-small (some _) n e = ground arith

parse_ethertype-Post :
    {ts : List Spanned} {d p : ℕ} {s : Parser}
    → AllInRange ts
    → Inv ts d p s
    → Post ts d (suc p) (λ n. n < 2 ^ 16) (parse_ethertype s)
unfolding parse_ethertype cur_tok
parse_ethertype-Post {s = s} fit i =
    option-Post {s = s} (named_ethertype (token_at s.tokens s.pos)) _ _
      (λ n e.
        let (t, here) = choice-some named_ethertype refl _ n e in
        bind-Post (advance-Post i here)
          (λ _ s1 j _. done j (named_ethertype-small (token_at s.tokens s.pos) n e)))
      (λ _. bind-Post (parse_u32-Post fit i) (λ n s1 j _. done j (omega arith)))

ether_at-Post :
    {ts : List Spanned} {d p : ℕ} {s : Parser} (dir : Dir) (t : Option Token)
    → AllInRange ts
    → token_at s.tokens s.pos ≡ t
    → Inv ts d p s
    → Post ts d (suc p) Fits (ether_at dir t s)
unfolding ether_at bounded_primitive fits_primitive
ether_at-Post dir (some Token.host) fit e i =
    bind-Post (advance-Post i e)
      (λ _ s1 j _. bind-Post (parse_mac-Post fit j) (λ m s2 k f. done (back (omega arith) k) f))
ether_at-Post dir (some (Token.mac _)) fit e i =
    bind-Post (parse_mac-Post fit i) (λ m s2 k f. done k f)
ether_at-Post dir (some Token.broadcast) fit e i =
    bind-Post (advance-Post i e) (λ _ s1 j _. done j refl)
ether_at-Post dir (some Token.multicast) fit e i =
    bind-Post (advance-Post i e) (λ _ s1 j _. done j refl)
ether_at-Post dir (some Token.proto) fit e i = bind-Post (advance-Post i e) (λ _ s1 j _.
    bind-Post (parse_ethertype-Post fit j)
      (λ n s2 k small. done (back (omega arith) k) (ground arith)))
ether_at-Post dir (some Token.ip) fit e i = bind-Post (advance-Post i e) (λ _ s1 j _. done j refl)
ether_at-Post dir (some Token.ip6) fit e i = bind-Post (advance-Post i e) (λ _ s1 j _. done j refl)
ether_at-Post dir (some Token.arp) fit e i = bind-Post (advance-Post i e) (λ _ s1 j _. done j refl)
ether_at-Post dir (some Token.rarp) fit e i = bind-Post (advance-Post i e) (λ _ s1 j _. done j refl)
ether_at-Post dir none fit e i = failed refl
ether_at-Post dir (some _) fit e i = failed refl

-- A keyword is next: it is taken, and the rest may take nothing.
pub access_or-Post :
    {ts : List Spanned} {p : ℕ} {s : Parser} {t : Token} (layer : Layer) (other : P Primitive)
    → AllInRange ts
    → Rests ts Fits other
    → token_at s.tokens s.pos ≡ some t
    → Inv ts 0 p s
    → Post ts 0 (suc p) Fits (access_or layer other s)
unfolding access_or cur_is
access_or-Post layer other fit h e i = bind-Post (advance-Post i e) (λ _ s1 j _.
    bool-Post {s = s1} (is_token Token.lbracket (token_at s1.tokens s1.pos)) _ _
      (λ _. loosen (omega arith) (λ a x. x) (parse_byte_access-Post layer fit s1 _ j))
      (λ _. h s1 _ j))

pub parse_ether_prim-Post :
    {ts : List Spanned} {p : ℕ} {s : Parser} {t : Token}
    → AllInRange ts
    → token_at s.tokens s.pos ≡ some t
    → Inv ts 0 p s
    → Post ts 0 (suc p) Fits (parse_ether_prim s)
unfolding parse_ether_prim
parse_ether_prim-Post fit e i =
    access_or-Post raw (do dir ← parse_dir; t ← cur_tok; ether_at dir t) fit
      (λ s1 p1 j.
        unfold cur_tok in
        bind-Post (parse_dir-Post j) (λ dir s2 k _.
          loosen (omega arith) (λ a x. x)
            (ether_at-Post dir (token_at s2.tokens s2.pos) fit refl k)))
      e i

pub ip_rest-Post : {ts : List Spanned} → AllInRange ts → Rests ts Fits ip_rest
unfolding ip_rest bounded_primitive fits_primitive
ip_rest-Post fit s p i =
    on-Eaten _ (eat-Eaten Token.proto i)
      (λ s1 j.
        bind-Post (parse_proto_num-Post fit j)
          (λ n s2 k small. done (back (omega arith) k) (ground arith)))
      (λ s1 j.
        on-Eaten _ (eat-Eaten Token.protochain j)
          (λ s2 k.
            bind-Post (parse_proto_num-Post fit k)
              (λ n s3 l small. done (back (omega arith) l) (ground arith)))
          (λ s2 k.
            on-Eaten _ (eat-Eaten Token.broadcast k) (λ s3 l. done (back (omega arith) l) refl)
              (λ s3 l.
                on-Eaten _ (eat-Eaten Token.multicast l) (λ s4 m. done (back (omega arith) m) refl)
                  (λ s4 m. done m refl))))

pub ip6_rest-Post : {ts : List Spanned} → AllInRange ts → Rests ts Fits ip6_rest
unfolding ip6_rest bounded_primitive fits_primitive
ip6_rest-Post fit s p i =
    on-Eaten _ (eat-Eaten Token.proto i)
      (λ s1 j.
        bind-Post (parse_proto_num-Post fit j)
          (λ n s2 k small. done (back (omega arith) k) (ground arith)))
      (λ s1 j.
        on-Eaten _ (eat-Eaten Token.protochain j)
          (λ s2 k.
            bind-Post (parse_proto_num-Post fit k)
              (λ n s3 l small. done (back (omega arith) l) (ground arith)))
          (λ s2 k.
            on-Eaten _ (eat-Eaten Token.multicast k) (λ s3 l. done (back (omega arith) l) refl)
              (λ s3 l. done l refl)))

num_at-Post :
    {ts : List Spanned} {d p : ℕ} {s : Parser} (limit : ℕ) (t : Option Token)
    → 0 < limit
    → token_at s.tokens s.pos ≡ t
    → Inv ts d p s
    → Post ts d p (λ o. fits_option limit o ≡ true) (num_at limit t s)
unfolding num_at
num_at-Post limit (some (Token.num n)) h e i =
    bind-Post (advance-Post i e) (λ _ s1 j _. done (back (omega arith) j) (ground arith))
num_at-Post limit none h e i = done i refl
num_at-Post limit (some Token.and) h e i = done i refl
num_at-Post limit (some _) h e i = done i refl

pub optional_num-Post :
    {ts : List Spanned} {d p : ℕ} {s : Parser} (limit : ℕ)
    → 0 < limit
    → Inv ts d p s
    → Post ts d p (λ o. fits_option limit o ≡ true) (optional_num limit s)
unfolding optional_num cur_tok
optional_num-Post {s = s} limit h i = num_at-Post limit (token_at s.tokens s.pos) h refl i

session_at-Post :
    {ts : List Spanned} {d p : ℕ} {s : Parser} (t : Option Token)
    → token_at s.tokens s.pos ≡ t
    → Inv ts d p s
    → Post ts d p (λ o. fits_option (2 ^ 16) o ≡ true) (session_at t s)
unfolding session_at
session_at-Post {s = s} (some (Token.num n)) e i =
    if-Post {s = s} (ltb 0xffff n) _ _ (λ _. failed refl)
      (λ h. bind-Post (advance-Post i e) (λ _ s1 j _. done (back (omega arith) j) (ground arith)))
session_at-Post none e i = done i refl
session_at-Post (some Token.and) e i = done i refl
session_at-Post (some _) e i = done i refl

pub session_id-Post :
    {ts : List Spanned} {d p : ℕ} {s : Parser}
    → Inv ts d p s
    → Post ts d p (λ o. fits_option (2 ^ 16) o ≡ true) (session_id s)
unfolding session_id cur_tok
session_id-Post {s = s} i = session_at-Post (token_at s.tokens s.pos) refl i
