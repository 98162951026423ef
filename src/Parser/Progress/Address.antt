-- ===== src/Parser/Progress/Address.antt =====
-- pktbaffle/src/parser.rs: addresses, networks, ports and protocol numbers take tokens and fit.
use pktbaffle.Prelude.{
  ℕ, suc, ◌-◌, ◌<◌, ◌≤◌, ◌^◌, ◌≡◌, refl, true, List, [], ◌∷◌, Option, some, none, arith,
  get_elem?-lt, ltb, leb, ◌==◌, ◌&&◌, and-left,
}
use pktbaffle.Ast.{IpAddr, v4, v6}
use pktbaffle.Codegen.Sane.Addr.{fits_addr}
use pktbaffle.Codegen.Sane.Link.{fits_mac}
use pktbaffle.Lexer.Token.{Token, Spanned}
use pktbaffle.Lexer.InRange.{in_range, four_octets}
use pktbaffle.Parser.Base.{Parser, token_at, cur_tok}
use pktbaffle.Parser.Address.{
  of_octets, ip_at, parse_ip, mac_at, parse_mac, named_proto, parse_proto_num, slash_offset,
  length_at, parse_prefix_len, host_length,
}
use pktbaffle.Parser.Progress.{
  AllInRange, Inv, Post, done, failed, Anything, bind-Post, back, loosen, advance-Post,
  advance-Taken, on-Taken, eat-Eaten, on-Eaten, if-Post, option-Post, parse_u32-Post, choice-some,
}

of_octets-small : (octs : List ℕ) → four_octets octs ≡ true → of_octets octs < 2 ^ 32
of_octets-small (a ∷ b ∷ c ∷ d ∷ []) h = ground arith
of_octets-small [] h = absurd (ground arith)
of_octets-small (a ∷ []) h = absurd (ground arith)
of_octets-small (a ∷ b ∷ []) h = absurd (ground arith)
of_octets-small (a ∷ b ∷ c ∷ []) h = absurd (ground arith)
of_octets-small (a ∷ b ∷ c ∷ d ∷ e ∷ r) h = absurd (ground arith)

-- The octets of a token that is in range.
pub octets-small :
    (octs : List ℕ) (parts : ℕ) → in_range (Token.ipv4 octs parts) ≡ true → of_octets octs < 2 ^ 32
unfolding in_range
octets-small octs parts h = of_octets-small octs (
    and-left (four_octets octs) (leb 2 parts)
      (and-left (four_octets octs && leb 2 parts) (leb parts 4) h))

ip_at-Post :
    {ts : List Spanned} {d p : ℕ} {s : Parser} (t : Token)
    → in_range t ≡ true
    → Inv ts d p s
    → Post ts d p (λ a. fits_addr a ≡ true) (ip_at (some t) s)
unfolding in_range
ip_at-Post (Token.ipv4 octs parts) g i =
    let small = octets-small octs parts g in done i (ground arith)
ip_at-Post (Token.ipv6 a) g i = done i g
ip_at-Post {s = s} (Token.num n) g i =
    if-Post {s = s} (leb n (2 ^ 32 - 1)) _ _ (λ h. done i (ground arith)) (λ _. failed refl)
ip_at-Post Token.and g i = failed refl
ip_at-Post _ g i = failed refl

pub parse_ip-Post :
    {ts : List Spanned} {d p : ℕ} {s : Parser}
    → AllInRange ts
    → Inv ts d p s
    → Post ts d (suc p) (λ a. fits_addr a ≡ true) (parse_ip s)
unfolding parse_ip
parse_ip-Post fit i =
    on-Taken _ (advance-Taken fit i) (λ t s1 g j. ip_at-Post t g j) (λ s1. failed refl)

mac_at-Post :
    {ts : List Spanned} {d p : ℕ} {s : Parser} (t : Token)
    → in_range t ≡ true
    → Inv ts d p s
    → Post ts d p (λ m. fits_mac m ≡ true) (mac_at (some t) s)
unfolding in_range
mac_at-Post (Token.mac m) g i = done i g
mac_at-Post Token.and g i = failed refl
mac_at-Post _ g i = failed refl

pub parse_mac-Post :
    {ts : List Spanned} {d p : ℕ} {s : Parser}
    → AllInRange ts
    → Inv ts d p s
    → Post ts d (suc p) (λ m. fits_mac m ≡ true) (parse_mac s)
unfolding parse_mac
parse_mac-Post fit i =
    on-Taken _ (advance-Taken fit i) (λ t s1 g j. mac_at-Post t g j) (λ s1. failed refl)

named_proto-small : (t : Option Token) (n : ℕ) → named_proto t ≡ some n → n < 2 ^ 8
named_proto-small none n e = absurd (ground arith)
named_proto-small (some Token.and) n e = absurd (ground arith)
named_proto-small (some _) n e = ground arith

pub parse_proto_num-Post :
    {ts : List Spanned} {d p : ℕ} {s : Parser}
    → AllInRange ts
    → Inv ts d p s
    → Post ts d (suc p) (λ n. n < 2 ^ 8) (parse_proto_num s)
unfolding parse_proto_num cur_tok
parse_proto_num-Post {s = s} fit i =
    option-Post {s = s} (named_proto (token_at s.tokens s.pos)) _ _
      (λ n e.
        let (t, here) = choice-some named_proto refl _ n e in
        bind-Post (advance-Post i here)
          (λ _ s1 j _. done j (named_proto-small (token_at s.tokens s.pos) n e)))
      (λ _. bind-Post (parse_u32-Post fit i) (λ n s1 j _.
        if-Post {s = s1} (ltb 0xff n) _ _ (λ _. failed refl) (λ h. done j (ground arith))))

-- After a token, the position before is inside the list.
slash_offset-Post :
    {ts : List Spanned} {d p : ℕ} {s : Parser}
    → Inv ts d (suc p) s
    → Post ts d (suc p) Anything (slash_offset s)
slash_offset-Post {s = s} i =
    let a = i.after in
    let b = i.inside in
    let (x, e) = get_elem?-lt s.tokens (s.pos - 1) (rw (i.same_tokens) (omega arith)) in
    rw (e, slash_offset) (done i tt)

length_at-Post :
    {ts : List Spanned} {d p : ℕ} {s : Parser} (max slash : ℕ) (t : Option Token)
    → Inv ts d p s
    → Post ts d p (λ n. n ≤ max) (length_at max slash t s)
length_at-Post {s = s} max slash (some (Token.num n)) i =
    if-Post {s = s} (leb n max) _ _ (λ h. done i (ground arith)) (λ _. failed refl)
length_at-Post max slash none i = failed refl
length_at-Post max slash (some Token.and) i = failed refl
length_at-Post max slash (some _) i = failed refl

pub parse_prefix_len-Post :
    {ts : List Spanned} {d p : ℕ} {s : Parser} (max : ℕ)
    → AllInRange ts
    → Inv ts d (suc p) s
    → Post ts d (suc p) (λ n. n ≤ max) (parse_prefix_len max s)
unfolding parse_prefix_len
parse_prefix_len-Post max fit i = bind-Post (slash_offset-Post i) (λ slash s1 j _.
    on-Taken _ (advance-Taken fit j)
      (λ t s2 g k. loosen (omega arith) (λ a x. x) (length_at-Post max slash (some t) k))
      (λ s2. failed refl))

pub host_length-Post :
    {ts : List Spanned} {d p : ℕ} {s : Parser} (a : IpAddr)
    → AllInRange ts
    → Inv ts d p s
    → Post ts d p Anything (host_length a s)
unfolding host_length
host_length-Post (v4 a) fit i = done i tt
host_length-Post (v6 a) fit i =
    on-Eaten _ (eat-Eaten Token.slash i)
      (λ s1 j. bind-Post (parse_prefix_len-Post 128 fit j) (λ n s2 k _.
        if-Post {s = s2} (n == 128) _ _ (λ _. done (back (omega arith) k) tt) (λ _. failed refl)))
      (λ s1 j. done j tt)
