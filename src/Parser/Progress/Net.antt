-- ===== src/Parser/Progress/Net.antt =====
-- pktbaffle/src/parser.rs: networks and ports take tokens and fit, and the loop that shifts a bare
-- integer ends.
use pktbaffle.Prelude.{
  leb, and-both, ◌≤◌, ℕ, suc, ◌-◌, ◌*◌, ◌%◌, ◌<◌, ◌^◌, ◌≡◌, refl, Bool, true, false, not, List,
  Option, some, arith, ltb, ◌==◌, ◌&&◌, and-left, and-right, if◌then◌else◌, bit_and,
}
use pktbaffle.Prelude.Bits.{high_byte}
use pktbaffle.Ast.{IpNet, from_prefix, Dir, Proto}
use pktbaffle.Codegen.Sane.Addr.{fits_net}
use pktbaffle.Codegen.Sane.Addr.{fits_ip6}
use pktbaffle.Codegen.Sane.Guards.{fits_primitive}
use pktbaffle.Parser.Bounded.{bounded_primitive, before_port}
use pktbaffle.Lexer.Token.{Token, Spanned}
use pktbaffle.Lexer.InRange.{in_range}
use pktbaffle.Parser.Base.{Parser, token_at, cur_tok}
use pktbaffle.Parser.Address.{
  of_octets, short_net, parse_host, shift_net, net6_length, mask_at, net_mask, net_at, parse_net,
  parse_port, parse_portrange, outside, host_mask, u128_of,
}
use pktbaffle.Parser.Progress.{
  AllInRange, Inv, Post, done, failed, bind-Post, back, loosen, advance-Post, advance-Taken,
  on-Taken, eat-Eaten, on-Eaten, if-Post, option-Post, expect-Post, parse_u16-Post, choice-some,
  token-here,
}
use pktbaffle.Parser.Progress.Address.{
  octets-small, parse_ip-Post, host_length-Post, parse_prefix_len-Post,
}

-- The loop found a network that fits.
abbrev Found : Option IpNet → Type 0
Found o = (n : IpNet) × (o ≡ some n) × (fits_net n ≡ true)

Found-if :
    (b : Bool) (o : Option IpNet) (n : IpNet)
    → (b ≡ true → Found o)
    → fits_net n ≡ true
    → Found (if b then o else some n)
Found-if true o n h f = h refl
Found-if false o n h f = (n, refl, f)

-- The loop goes on only while the high byte is zero, so the shift loses no bit.
shift_net-step :
    (fuel addr mask : ℕ)
    → addr < 2 ^ 32
    → mask < 2 ^ 32
    → (0 < addr → addr < 2 ^ 24 → Found (shift_net fuel (addr * 2 ^ 8) (mask * 2 ^ 8 % 2 ^ 32)))
    → Found (shift_net (suc fuel) addr mask)
unfolding shift_net
shift_net-step fuel addr mask a m h =
    Found-if (not (addr == 0) && (bit_and addr 0xff000000 == 0)) _ _
      (λ c.
        let nz = and-left (not (addr == 0)) _ c in
        let hi = and-right (not (addr == 0)) _ c in
        let v = high_byte addr in
        let pos : 0 < addr = ground arith in
        let z : bit_and addr 0xff000000 ≡ 0 = ground arith in
        let small : addr < 2 ^ 24 = omega arith in
        let same : addr * 2 ^ 8 % 2 ^ 32 ≡ addr * 2 ^ 8 = omega arith in rw same (h pos small))
      (ground arith)

-- Three shifts bring any byte of a 32-bit number to the top.
shift_net-Found : (n : ℕ) → n < 2 ^ 32 → Found (shift_net 5 n (2 ^ 32 - 1))
shift_net-Found n h = shift_net-step 4 n _ h (omega arith) (λ p0 l0.
    shift_net-step 3 _ _ (omega arith) (omega arith) (λ p1 l1.
      shift_net-step 2 _ _ (omega arith) (omega arith) (λ p2 l2.
        shift_net-step 1 _ _ (omega arith) (omega arith) (λ p3 l3. absurd (omega arith)))))

short_net-fits :
    (t : Token) (n : IpNet) → in_range t ≡ true → short_net (some t) ≡ some n → fits_net n ≡ true
unfolding in_range
short_net-fits (Token.ipv4 octs parts) n g e = let small = octets-small octs parts g in ground arith
short_net-fits Token.and n g e = absurd (ground arith)
short_net-fits _ n g e = absurd (ground arith)

pub parse_host-Post :
    {ts : List Spanned} {d p : ℕ} {s : Parser} (dir : Dir)
    → AllInRange ts
    → Inv ts d p s
    → Post ts d (suc p) (λ x. bounded_primitive x ≡ true) (parse_host dir s)
unfolding parse_host cur_tok bounded_primitive fits_primitive
parse_host-Post {ts} {d} {p} {s} dir fit i =
    option-Post {s = s} (short_net (token_at s.tokens s.pos)) _ _
      (λ n e.
        let (t, here) = choice-some short_net refl _ n e in
        let g : in_range t ≡ true = fit s.pos t (rw (← token-here i) here) in
        let q : short_net (some t) ≡ some n = rw (← here) e in
        bind-Post (advance-Post i here) (λ _ s1 j _. done j (short_net-fits t n g q)))
      (λ _.
        bind-Post (parse_ip-Post fit i)
          (λ a s1 j f. bind-Post (host_length-Post a fit j) (λ _ s2 k _. done k f)))

net6_length-Post :
    {ts : List Spanned} {d p : ℕ} {s : Parser}
    → AllInRange ts
    → Inv ts d p s
    → Post ts d p (λ n. n ≤ 128) (net6_length s)
unfolding net6_length
net6_length-Post fit i =
    on-Eaten _ (eat-Eaten Token.slash i)
      (λ s1 j. loosen (omega arith) (λ a x. x) (parse_prefix_len-Post 128 fit j))
      (λ s1 j. done j (omega arith))

mask_at-Post :
    {ts : List Spanned} {d p : ℕ} {s : Parser} (t : Token)
    → in_range t ≡ true
    → Inv ts d p s
    → Post ts d p (λ m. m < 2 ^ 32) (mask_at (some t) s)
unfolding mask_at
mask_at-Post (Token.ipv4 octs parts) g i = done i (octets-small octs parts g)
mask_at-Post Token.and g i = failed refl
mask_at-Post _ g i = failed refl

from_prefix-small : (addr n : ℕ) → (from_prefix addr n).mask < 2 ^ 32
unfolding from_prefix
from_prefix-small addr n = ground arith

net_mask-Post :
    {ts : List Spanned} {d p : ℕ} {s : Parser} (addr parts : ℕ)
    → AllInRange ts
    → Inv ts d p s
    → Post ts d p (λ m. m < 2 ^ 32) (net_mask addr parts s)
unfolding net_mask
net_mask-Post addr parts fit i =
    on-Eaten _ (eat-Eaten Token.slash i)
      (λ s1 j. bind-Post (parse_prefix_len-Post 32 fit j) (λ n s2 k _.
        if-Post {s = s2} (outside addr ((from_prefix addr n).mask) == 0) _ _
          (λ _. done (back (omega arith) k) (from_prefix-small addr n)) (λ _. failed refl)))
      (λ s1 j.
        on-Eaten _ (eat-Eaten Token.mask j)
          (λ s2 k.
            on-Taken _ (advance-Taken fit k)
              (λ t s3 g l. bind-Post (mask_at-Post t g l) (λ m s4 o small.
                if-Post {s = s4} (outside addr m == 0) _ _ (λ _. done (back (omega arith) o) small)
                  (λ _. failed refl)))
              (λ s3. unfold mask_at in failed refl))
          (λ s2 k. done k (omega arith)))

net_at-Post :
    {ts : List Spanned} {d p : ℕ} {s : Parser} (dir : Dir) (t : Token)
    → AllInRange ts
    → in_range t ≡ true
    → Inv ts d p s
    → Post ts d p (λ x. bounded_primitive x ≡ true) (net_at dir (some t) s)
unfolding net_at in_range bounded_primitive fits_primitive
net_at-Post dir (Token.ipv4 octs parts) fit g i =
    on-Eaten _ (eat-Eaten Token.minus i) (λ s1 j. failed refl)
      (λ s1 j.
        bind-Post (net_mask-Post (of_octets octs) parts fit j)
          (λ m s2 k small. let low = octets-small octs parts g in done k (ground arith)))
net_at-Post {s = s} dir (Token.num n) fit g i =
    let (x, e, f) = shift_net-Found n (ground arith) in
    if-Post {s = s} (ltb (2 ^ 32 - 1) n) _ _ (λ _. failed refl) (λ _. rw e (done i f))
net_at-Post dir (Token.ipv6 addr) fit g i = bind-Post (net6_length-Post fit i) (λ n s1 j l.
    if-Post {s = s1} (bit_and (u128_of addr) (host_mask n) == 0) _ _
      (λ _. done j (and-both (fits_ip6 addr) (leb n 128) g (ground arith))) (λ _. failed refl))
net_at-Post dir Token.and fit g i = failed refl
net_at-Post dir _ fit g i = failed refl

pub parse_net-Post :
    {ts : List Spanned} {d p : ℕ} {s : Parser} (dir : Dir)
    → AllInRange ts
    → Inv ts d p s
    → Post ts d (suc p) (λ x. bounded_primitive x ≡ true) (parse_net dir s)
unfolding parse_net net_at
parse_net-Post dir fit i =
    on-Taken _ (advance-Taken fit i) (λ t s1 g j. net_at-Post dir t fit g j) (λ s1. failed refl)

pub parse_port-Post :
    {ts : List Spanned} {d p : ℕ} {s : Parser} (dir : Dir) (proto : Option Proto)
    → before_port proto ≡ true
    → AllInRange ts
    → Inv ts d p s
    → Post ts d (suc p) (λ x. bounded_primitive x ≡ true) (parse_port dir proto s)
unfolding parse_port bounded_primitive fits_primitive
parse_port-Post dir proto b fit i =
    bind-Post (parse_u16-Post fit i) (λ n s1 j small. done j (ground arith))

pub parse_portrange-Post :
    {ts : List Spanned} {d p : ℕ} {s : Parser} (dir : Dir) (proto : Option Proto)
    → before_port proto ≡ true
    → AllInRange ts
    → Inv ts d p s
    → Post ts d (suc p) (λ x. bounded_primitive x ≡ true) (parse_portrange dir proto s)
unfolding parse_portrange bounded_primitive fits_primitive
parse_portrange-Post dir proto b fit i = bind-Post (parse_u16-Post fit i) (λ lo s1 j low.
    bind-Post (expect-Post Token.minus j) (λ _ s2 k _.
      bind-Post (parse_u16-Post fit k)
        (λ hi s3 l high. done (back (omega arith) l) (ground arith))))
