-- ===== src/Parser/Progress/Primitive.antt =====
-- pktbaffle/src/parser.rs: the parts of a primitive after its first token.
use pktbaffle.Prelude.{ℕ, suc, ◌≡◌, refl, Bool, true, false, List, Option, some, none, arith}
use pktbaffle.Ast.{Dir, Proto, Primitive}
use pktbaffle.Parser.Bounded.{bounded_primitive, before_port}
use pktbaffle.Lexer.Token.{Token, Spanned}
use pktbaffle.Parser.Base.{P, Parser, token_at, is_token, cur_is, cur_tok, advance, Result, ok, err}
use pktbaffle.Parser.Primitive.{
  or_rest, src_rest, dir_at, parse_dir, port_or, no_port, after_dir_at, parse_after_dir,
}
use pktbaffle.Parser.Progress.{
  AllInRange, Inv, Post, done, failed, Anything, bind-Post, back, loosen, advance-Post, Eaten,
  found, absent, eat-Eaten, on-Eaten, is_token-some,
}
use pktbaffle.Parser.Progress.Net.{
  parse_host-Post, parse_net-Post, parse_port-Post, parse_portrange-Post,
}

-- A primitive whose numbers fit.
abbrev pub Fits : Primitive → Type 0
Fits x = bounded_primitive x ≡ true

-- `op_then_dst` said whether `dst` is next.
data Ready (ts : List Spanned) (d p : ℕ) : Result (Bool × Parser) → Type 0 where
  ready :
      {s : Parser}
      → Inv ts d p s
      → is_token Token.dst (token_at s.tokens s.pos) ≡ true
      → Ready ts d p (ok (true, s))
  unready : {s : Parser} → Inv ts d p s → Ready ts d p (ok (false, s))

Ready-if :
    {ts : List Spanned} {d p : ℕ} {s : Parser} (b : Bool)
    → is_token Token.dst (token_at s.tokens s.pos) ≡ b
    → Inv ts d p s
    → Ready ts d p (ok (b, s))
Ready-if true h i = ready i h
Ready-if false h i = unready i

Eaten-Ready :
    {ts : List Spanned} {d p : ℕ} {r : Result (Bool × Parser)}
    → Eaten ts d p r
    → Ready ts d p (elim r [
      | ok (b, s) ↦
          elim b as (λ _. P Bool) [ true ↦ cur_is Token.dst | false ↦ λ s. ok (false, s) ] s
      | err e ↦ err e
    ])
unfolding cur_is
Eaten-Ready (found {s} i) =
    Ready-if (is_token Token.dst (token_at s.tokens s.pos)) refl (back (omega arith) i)
Eaten-Ready (absent i) = unready i

-- The `dst` that was seen is taken, or the rest follows.
taken_dst-Post :
    {A : Type 0} {ts : List Spanned} {d p : ℕ} {Q : A → Type 0} {r : Result (Bool × Parser)}
    (then_m else_m : P A)
    → Ready ts d p r
    → ((s : Parser)
        → Inv ts d p s
        → is_token Token.dst (token_at s.tokens s.pos) ≡ true
        → Post ts d p Q (then_m s))
    → ((s : Parser) → Inv ts d p s → Post ts d p Q (else_m s))
    → Post ts d p Q (elim r [
      | ok (b, s) ↦ elim b as (λ _. P A) [ true ↦ then_m | false ↦ else_m ] s
      | err e ↦ err e
    ])
taken_dst-Post then_m else_m (ready i h) k l = k _ i h
taken_dst-Post then_m else_m (unready i) k l = l _ i

-- The token that `cur_is` has seen.
advance-seen :
    {ts : List Spanned} {d p : ℕ} {s : Parser} (t : Token)
    → Inv ts d p s
    → is_token t (token_at s.tokens s.pos) ≡ true
    → Post ts d (suc p) Anything (advance s)
advance-seen {s = s} t i h =
    let (x, e) = is_token-some t (token_at s.tokens s.pos) h in advance-Post i e

or_rest-Post :
    {ts : List Spanned} {d p : ℕ} {s : Parser} → Inv ts d p s → Post ts d p Anything (or_rest s)
unfolding or_rest
or_rest-Post i =
    taken_dst-Post _ _ (Eaten-Ready (eat-Eaten Token.or i))
      (λ s1 j h.
        bind-Post (advance-seen Token.dst j h) (λ _ s2 k _. done (back (omega arith) k) tt))
      (λ s1 j. done j tt)

src_rest-Post :
    {ts : List Spanned} {d p : ℕ} {s : Parser} → Inv ts d p s → Post ts d p Anything (src_rest s)
unfolding src_rest
src_rest-Post i =
    taken_dst-Post _ _ (Eaten-Ready (eat-Eaten Token.and i))
      (λ s1 j h.
        bind-Post (advance-seen Token.dst j h) (λ _ s2 k _. done (back (omega arith) k) tt))
      (λ s1 j. or_rest-Post j)

dir_at-Post :
    {ts : List Spanned} {d p : ℕ} {s : Parser} (t : Option Token)
    → token_at s.tokens s.pos ≡ t
    → Inv ts d p s
    → Post ts d p Anything (dir_at t s)
unfolding dir_at
dir_at-Post (some Token.src) e i =
    bind-Post (advance-Post i e) (λ _ s1 j _. src_rest-Post (back (omega arith) j))
dir_at-Post (some Token.dst) e i =
    bind-Post (advance-Post i e) (λ _ s1 j _. done (back (omega arith) j) tt)
dir_at-Post none e i = done i tt
dir_at-Post (some _) e i = done i tt

pub parse_dir-Post :
    {ts : List Spanned} {d p : ℕ} {s : Parser} → Inv ts d p s → Post ts d p Anything (parse_dir s)
unfolding parse_dir cur_tok
parse_dir-Post {s = s} i = dir_at-Post (token_at s.tokens s.pos) refl i

-- A step that takes nothing by itself.
abbrev pub Rests : {A : Type 0} → List Spanned → (A → Type 0) → P A → Type 0
Rests ts Q m = (s : Parser) (p : ℕ) → Inv ts 0 p s → Post ts 0 p Q (m s)

pub port_or-Post :
    {ts : List Spanned} (dir : Dir) (q : Proto) (other : P Primitive)
    → before_port (some q) ≡ true
    → AllInRange ts
    → Rests ts Fits other
    → Rests ts Fits (port_or dir q other)
unfolding port_or
port_or-Post dir q other b fit h s p i =
    on-Eaten _ (eat-Eaten Token.port i)
      (λ s1 j. loosen (omega arith) (λ a x. x) (parse_port-Post dir (some q) b fit j))
      (λ s1 j.
        on-Eaten _ (eat-Eaten Token.port_range j)
          (λ s2 k. loosen (omega arith) (λ a x. x) (parse_portrange-Post dir (some q) b fit k))
          (λ s2 k. h s2 p k))

no_port-Post : {ts : List Spanned} (t : Token) → Rests ts Fits (no_port t)
unfolding cur_tok
no_port-Post t s p i = failed refl

after_dir_at-Post :
    {ts : List Spanned} {p : ℕ} {s : Parser} (dir : Dir) (t : Option Token)
    → AllInRange ts
    → token_at s.tokens s.pos ≡ t
    → Inv ts 0 p s
    → Post ts 0 (suc p) Fits (after_dir_at dir t s)
unfolding after_dir_at
after_dir_at-Post dir (some Token.host) fit e i =
    bind-Post (advance-Post i e)
      (λ _ s1 j _. loosen (omega arith) (λ a x. x) (parse_host-Post dir fit j))
after_dir_at-Post dir (some Token.net) fit e i =
    bind-Post (advance-Post i e)
      (λ _ s1 j _. loosen (omega arith) (λ a x. x) (parse_net-Post dir fit j))
after_dir_at-Post dir (some Token.port) fit e i =
    bind-Post (advance-Post i e)
      (λ _ s1 j _. loosen (omega arith) (λ a x. x) (parse_port-Post dir none refl fit j))
after_dir_at-Post dir (some Token.port_range) fit e i =
    bind-Post (advance-Post i e)
      (λ _ s1 j _. loosen (omega arith) (λ a x. x) (parse_portrange-Post dir none refl fit j))
after_dir_at-Post dir (some Token.tcp) fit e i = bind-Post (advance-Post i e) (λ _ s1 j _.
    port_or-Post dir Proto.tcp (no_port Token.tcp) refl fit (no_port-Post Token.tcp) s1 _ j)
after_dir_at-Post dir (some Token.udp) fit e i = bind-Post (advance-Post i e) (λ _ s1 j _.
    port_or-Post dir Proto.udp (no_port Token.udp) refl fit (no_port-Post Token.udp) s1 _ j)
after_dir_at-Post dir (some Token.sctp) fit e i = bind-Post (advance-Post i e) (λ _ s1 j _.
    port_or-Post dir Proto.sctp (no_port Token.sctp) refl fit (no_port-Post Token.sctp) s1 _ j)
after_dir_at-Post dir (some (Token.ipv4 _ _)) fit e i = parse_host-Post dir fit i
after_dir_at-Post dir (some (Token.ipv6 _)) fit e i = parse_host-Post dir fit i
after_dir_at-Post dir (some (Token.num _)) fit e i = parse_host-Post dir fit i
after_dir_at-Post dir none fit e i = failed refl
after_dir_at-Post dir (some _) fit e i = failed refl

pub parse_after_dir-Post :
    {ts : List Spanned} {p : ℕ} {s : Parser} (dir : Dir)
    → AllInRange ts
    → Inv ts 0 p s
    → Post ts 0 (suc p) Fits (parse_after_dir dir s)
unfolding parse_after_dir cur_tok
parse_after_dir-Post {s = s} dir fit i = after_dir_at-Post dir (token_at s.tokens s.pos) fit refl i
