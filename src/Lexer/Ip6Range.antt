-- ===== src/Lexer/Ip6Range.antt =====
-- The reader of IPv6 addresses that pktbaffle/src/lexer.rs calls: at most eight groups of 16 bits.
use pktbaffle.Prelude.{
  ℕ, zero, suc, ◌+◌, ◌-◌, ◌*◌, ◌^◌, ◌≤◌, ◌<◌, ◌≡◌, refl, List, [], ◌∷◌, ◌++◌, Bool, true, false,
  not, ◌||◌, ◌&&◌, Option, none, some, ltb, leb, ◌==◌, if◌then◌else◌, length, length-append,
  length-replicate, replicate, arith, and-both, and-left, and-right,
}
use pktbaffle.Codegen.Sane.Addr.{fits_ip6, fits_segments}
use pktbaffle.Lexer.Bytes.{to_digit}
use pktbaffle.Lexer.Ip6.{
  Reader, read_given_char, read_digits, read_number, read_separator, octet, read_ipv4_addr,
  read_groups, read_tail, read_ipv6_addr, whole, parse_ipv6, starts_with_zero,
}
use pktbaffle.Lexer.Ranges.{Holds, nothing, just, weaken-Holds, bind-Holds, if-Holds}

-- A reader whose values satisfy `Q`.
abbrev Reads : {A : Type 0} → (A → Type 0) → Reader A → Type 0
Reads Q f = (text : List ℕ) → Holds (λ r. Q (r.0)) (f text)

abbrev Anything : {A : Type 0} → A → Type 0
Anything a = Unit

read_given_char-Reads : (c : ℕ) → Reads Anything (read_given_char c)
unfolding read_given_char
read_given_char-Reads c [] = nothing
read_given_char-Reads c (b ∷ bs) = if-Holds (b == c) _ _ (λ _. just tt) nothing

digit-Holds :
    {A : Type 0} {Q : A → Type 0} (o : Option ℕ) (end : A) (f : ℕ → Option A)
    → Q end
    → ((d : ℕ) → Holds Q (f d))
    → Holds Q (elim o [ none ↦ some end | some d ↦ f d ])
digit-Holds none end f q k = just q
digit-Holds (some d) end f q k = k d

read_digits-Reads :
    (radix max max_digits seen acc : ℕ)
    → acc ≤ max
    → Reads (λ r. r.0 ≤ max) (read_digits radix max max_digits seen acc)
unfolding read_digits
read_digits-Reads radix max max_digits seen acc h [] = just h
read_digits-Reads radix max max_digits seen acc h (b ∷ bs) =
    digit-Holds (to_digit radix b) _ _ h (λ d.
      if-Holds (leb (acc * radix + d) max && ltb seen max_digits) _ _
        (λ c.
          let l = and-left (leb (acc * radix + d) max) (ltb seen max_digits) c in
          read_digits-Reads radix max max_digits (suc seen) (acc * radix + d) (ground arith) bs)
        nothing)

-- If the first is refused, the second.
else-Holds :
    {A : Type 0} {Q : A → Type 0} (b : Bool) (x : Option A)
    → Holds Q x
    → Holds Q (if b then none else x)
else-Holds true x h = nothing
else-Holds false x h = h

read_number-Reads :
    (radix max max_digits : ℕ) (allow : Bool)
    → Reads (λ v. v ≤ max) (read_number radix max max_digits allow)
unfolding read_number
read_number-Reads radix max max_digits allow text =
    bind-Holds _ (read_digits-Reads radix max max_digits 0 0 (omega arith) text) (λ r h.
      else-Holds (r.0.1 == 0 || (not allow && starts_with_zero text && ltb 1 r.0.1)) _ (just h))

read_separator-Reads :
    {A : Type 0} (Q : A → Type 0) (sep i : ℕ) (f : Reader A)
    → Reads Q f
    → Reads Q (read_separator sep i f)
unfolding read_separator
read_separator-Reads Q sep zero f h text = h text
read_separator-Reads Q sep (suc i) f h text =
    bind-Holds _ (read_given_char-Reads sep text) (λ r _. h (r.1))

octet-Reads : (i : ℕ) → Reads (λ v. v ≤ 255) (octet i)
octet-Reads i =
    read_separator-Reads (λ v. v ≤ 255) b'.' i (read_number 10 255 3 false)
      (read_number-Reads 10 255 3 false)

read_ipv4_addr-Reads : Reads (λ r. (r.0 < 2 ^ 16) × (r.1 < 2 ^ 16)) read_ipv4_addr
unfolding read_ipv4_addr
read_ipv4_addr-Reads text = bind-Holds _ (octet-Reads 0 text) (λ a ha.
    bind-Holds _ (octet-Reads 1 (a.1)) (λ b hb.
      bind-Holds _ (octet-Reads 2 (b.1))
        (λ c hc. bind-Holds _ (octet-Reads 3 (c.1)) (λ d hd. just (omega arith, omega arith)))))

-- Groups of 16 bits, and no more of them than asked for.
record Groups (left : ℕ) (segs : List ℕ) : Type 0 where
  fit : fits_segments segs ≡ true
  few : length segs ≤ left

embedded-Groups :
    (left : ℕ) (o : Option ((ℕ × ℕ) × List ℕ)) (other : List ℕ × Bool × List ℕ)
    → Holds (λ r. ((r.0.0 < 2 ^ 16) × (r.0.1 < 2 ^ 16)) × (2 ≤ left)) o
    → Groups left (other.0)
    → Groups left (
        (elim o as (λ _. List ℕ × Bool × List ℕ) [
          | some r ↦ (r.0.0 ∷ r.0.1 ∷ [], true, r.1)
          | none ↦ other
        ]).0)
embedded-Groups left none other h g = g
embedded-Groups left (some r) other (just ((p, q), l)) g = record {
  fit = ground arith;
  few = omega arith;
}

group-Groups :
    (left : ℕ) (o : Option (ℕ × List ℕ)) (text : List ℕ) (f : ℕ × List ℕ → List ℕ × Bool × List ℕ)
    → Holds (λ r. r.0 ≤ 2 ^ 16 - 1) o
    → ((r : ℕ × List ℕ) → Groups left ((f r).0))
    → Groups (suc left) (
        (elim o as (λ _. List ℕ × Bool × List ℕ) [
          | none ↦ ([], false, text)
          | some r ↦ (let more = f r in (r.0 ∷ more.0, more.1, more.2))
        ]).0)
group-Groups left none text f h g = record { fit = refl; few = omega arith }
group-Groups left (some r) text f (just small) g =
    let q = g r in
    let few = q.few in
    record { fit = and-both (ltb (r.0) (2 ^ 16)) _ (ground arith) (q.fit); few = omega arith }

read_groups-Groups : (left i : ℕ) (text : List ℕ) → Groups left ((read_groups left i text).0)
unfolding read_groups
read_groups-Groups zero i text = record { fit = refl; few = omega arith }
read_groups-Groups (suc left) i text =
    embedded-Groups (suc left) _ _
      (if-Holds (ltb 0 left) _ _
        (λ l.
          weaken-Holds
            (read_separator-Reads (λ r. (r.0 < 2 ^ 16) × (r.1 < 2 ^ 16)) b':' i read_ipv4_addr
              read_ipv4_addr-Reads text)
            (λ r h. (h, ground arith)))
        nothing)
      (group-Groups left (read_separator b':' i (read_number 16 (2 ^ 16 - 1) 4 true) text) text
        (λ r. read_groups left (suc i) (r.1))
        (read_separator-Reads (λ v. v ≤ 2 ^ 16 - 1) b':' i (read_number 16 (2 ^ 16 - 1) 4 true)
          (read_number-Reads 16 (2 ^ 16 - 1) 4 true) text)
        (λ r. read_groups-Groups left (suc i) (r.1)))

fits_segments-append :
    (xs ys : List ℕ)
    → fits_segments xs ≡ true
    → fits_segments ys ≡ true
    → fits_segments (xs ++ ys) ≡ true
fits_segments-append [] ys h k = k
fits_segments-append (x ∷ xs) ys h k =
    and-both (ltb x (2 ^ 16)) _ (and-left (ltb x (2 ^ 16)) (fits_segments xs) h)
      (fits_segments-append xs ys (and-right (ltb x (2 ^ 16)) (fits_segments xs) h) k)

fits_segments-replicate : (n : ℕ) → fits_segments (replicate n 0) ≡ true
fits_segments-replicate zero = refl
fits_segments-replicate (suc n) = fits_segments-replicate n

tail-fits :
    (head tail : List ℕ)
    → fits_segments head ≡ true
    → fits_segments tail ≡ true
    → length head ≤ 8
    → length tail ≤ 8 - (length head + 1)
    → fits_ip6 (head ++ replicate (8 - length head - length tail) 0 ++ tail) ≡ true
tail-fits head tail f g h k =
    let n = 8 - length head - length tail in
    let a = length-append (head ++ replicate n 0) tail in
    let b = length-append head (replicate n 0) in
    let c : length {A = ℕ} (replicate n 0) ≡ n = length-replicate n 0 in
    let l : length (head ++ replicate n 0 ++ tail) ≤ 8 = omega arith in
    and-both (leb (length (head ++ replicate n 0 ++ tail)) 8) _ (ground arith) (
      fits_segments-append (head ++ replicate n 0) tail
        (fits_segments-append head (replicate n 0) f (fits_segments-replicate n)) g)

read_tail-Holds :
    (head text : List ℕ) → Groups 8 head → Holds (λ r. fits_ip6 (r.0) ≡ true) (read_tail head text)
unfolding read_tail
read_tail-Holds head text g = bind-Holds _ (read_given_char-Reads b':' text) (λ a _.
    bind-Holds _ (read_given_char-Reads b':' (a.1)) (λ b _.
      let t = read_groups-Groups (8 - (length head + 1)) 0 (b.1) in
      just (tail-fits head _ (g.fit) (t.fit) (g.few) (t.few))))

read_ipv6_addr-Reads : Reads (λ a. fits_ip6 a ≡ true) read_ipv6_addr
unfolding read_ipv6_addr
read_ipv6_addr-Reads text =
    let h = read_groups-Groups 8 0 text in
    let few = h.few in
    if-Holds (length ((read_groups 8 0 text).0) == 8) _ _
      (λ _. just (and-both (leb (length ((read_groups 8 0 text).0)) 8) _ (ground arith) (h.fit)))
      (else-Holds ((read_groups 8 0 text).1) _ (read_tail-Holds _ ((read_groups 8 0 text).2) h))

whole-Holds :
    (a : List ℕ) (rest : List ℕ)
    → fits_ip6 a ≡ true
    → Holds (λ a. fits_ip6 a ≡ true) (whole (a, rest))
whole-Holds a [] h = just h
whole-Holds a (b ∷ bs) h = nothing

-- An address that is read has at most eight segments, each of 16 bits.
pub parse_ipv6-Holds : (text : List ℕ) → Holds (λ a. fits_ip6 a ≡ true) (parse_ipv6 text)
unfolding parse_ipv6
parse_ipv6-Holds text = bind-Holds _ (read_ipv6_addr-Reads text) (λ r h. whole-Holds (r.0) (r.1) h)
