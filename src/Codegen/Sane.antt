-- ===== src/Codegen/Sane.antt =====
-- pktbaffle/src/codegen.rs: an invariant of the compiler's state, and the rule for a sequence of steps.
pub mod Build
pub mod Check
pub mod Addr
pub mod Port
pub mod Link
pub mod Access
pub mod Guards
pub mod Emit
pub mod Compile
use pktbaffle.Prelude.{
  ℕ, zero, suc, ◌+◌, ◌*◌, ◌^◌, ◌<◌, ◌≤◌, ◌≡◌, refl, sym, Bool, true, false, List, [], ◌∷◌, ◌++◌,
  some, none, arith, length, get_elem?, set, Option-cases, Option, inl, inr, if◌then◌else◌, ltb,
}
use pktbaffle.Bpf.{Insn, IsTyped}
use pktbaffle.Optimizer.{is_ja}
use pktbaffle.Optimizer.Decode.{IsCanonical}
use pktbaffle.Codegen.Facts.{
  Facts, LinkType, link_net_offset, link_ether_proto_offset, ethernet, raw_ip, linux_sll,
}
use pktbaffle.Codegen.State.{
  Patch, jt, jf, ja, Codegen, Result, ok, err, M, push, net_offset, ether_proto_offset, offset,
  modify_insn, resolve, resolve_all, lift, set_facts, CodegenError, ◌>>=◌, writes_x, shifted,
}

-- An instruction of the compiler: typed, a known opcode, and a `ja` only as far as a patch reaches.
pub record IsGood (i : Insn) : Type 0 where
  pub typed : IsTyped i
  pub canonical : IsCanonical i
  pub short_ja : is_ja i ≡ true → i.k < 256

pub data AllGood : List Insn → Type 0 where
  none_left : AllGood []
  also : {i : Insn} {is : List Insn} → IsGood i → AllGood is → AllGood (i ∷ is)

-- The state in the scope of `d` VLAN tags.
pub record Inv (d : ℕ) (cg : Codegen) : Type 0 where
  pub depth : cg.vlan_depth ≡ d
  pub shallow : d < 2 ^ 20
  pub good : AllGood cg.insns

-- What holds of a step's result: an error, or a state that keeps the invariant.
pub data Post {A : Type 0} (d : ℕ) : Result (A × Codegen) → Type 0 where
  kept : {a : A} {cg : Codegen} → Inv d cg → Post d (ok (a, cg))
  failed : {e : CodegenError} → Post d (err e)

-- A step that keeps the invariant of every state.
abbrev pub Keeps : {A : Type 0} → ℕ → M A → Type 0
Keeps d m = (cg : Codegen) → Inv d cg → Post d (m cg)

pub bind-Post :
    {A B : Type 0} {c d : ℕ} {r : Result (A × Codegen)} {f : A → Codegen → Result (B × Codegen)}
    → Post c r
    → ((a : A) (cg : Codegen) → Inv c cg → Post d (f a cg))
    → Post d (elim r [ ok (a, cg) ↦ f a cg | err e ↦ err e ])
bind-Post (kept i) k = k _ _ i
bind-Post failed k = failed

pub if-Post :
    {A : Type 0} {d : ℕ} {cg : Codegen} (b : Bool) (m n : M A)
    → Post d (m cg)
    → Post d (n cg)
    → Post d ((if b then m else n) cg)
if-Post true m n p q = p
if-Post false m n p q = q

pub option-Post :
    {X A : Type 0} {d : ℕ} {cg : Codegen} (o : Option X) (f : X → M A) (n : M A)
    → ((x : X) → o ≡ some x → Post d (f x cg))
    → Post d (n cg)
    → Post d (elim o as (λ _. M A) [ some x ↦ f x | none ↦ n ] cg)
option-Post (some x) f n p q = p x refl
option-Post none f n p q = q

AllGood-append : {p : List Insn} {i : Insn} → AllGood p → IsGood i → AllGood (p ++ (i ∷ []))
AllGood-append none_left g = also g none_left
AllGood-append (also h t) g = also h (AllGood-append t g)

pub AllGood-get : {p : List Insn} (j : ℕ) (x : Insn) → AllGood p → get_elem? p j ≡ some x → IsGood x
AllGood-get j x none_left e = absurd (ground arith)
AllGood-get zero x (also {i} h t) e = let q : i ≡ x = ground arith in rw (← q) h
AllGood-get (suc j) x (also h t) e = AllGood-get j x t e

AllGood-set : {p : List Insn} {x : Insn} (j : ℕ) → AllGood p → IsGood x → AllGood (set p j x)
AllGood-set j none_left g = none_left
AllGood-set zero (also h t) g = also g t
AllGood-set (suc j) (also h t) g = also h (AllGood-set j t g)

Inv-if : {d : ℕ} {x y : Codegen} (b : Bool) → Inv d x → Inv d y → Inv d (if b then x else y)
Inv-if true v w = v
Inv-if false v w = w

pub push-Post : {d : ℕ} {cg : Codegen} {i : Insn} → Inv d cg → IsGood i → Post d (push i cg)
unfolding push
push-Post {i = i} v g =
    let w = AllGood-append v.good g in
    kept (
      Inv-if (writes_x i) (record { depth = v.depth; shallow = v.shallow; good = w })
        (record { depth = v.depth; shallow = v.shallow; good = w }))

pub with_facts : {d : ℕ} {cg : Codegen} {f : Facts} → Inv d cg → Inv d (record cg { facts = f })
with_facts v = record { depth = v.depth; shallow = v.shallow; good = v.good }

modify_insn-Post :
    {d : ℕ} {cg : Codegen} (j : ℕ) (f : Insn → Insn)
    → Inv d cg
    → ((x : Insn) → IsGood x → IsGood (f x))
    → Post d (modify_insn j f cg)
modify_insn-Post {cg = cg} j f v g = elim (Option-cases (get_elem? cg.insns j)) [
  | inl e ↦ rw (e, modify_insn) failed
  | inr (x, e) ↦
      rw (e, modify_insn)
        (kept (record {
          depth = v.depth;
          shallow = v.shallow;
          good = AllGood-set j v.good (g x (AllGood-get j x v.good e));
        }))
]

offset-small : (i t : ℕ) (n : ℕ) → offset i t ≡ ok n → n < 256
unfolding offset
offset-small i t n e = ground arith

lifted-Post :
    {A : Type 0} {d : ℕ} {cg : Codegen} (f : ℕ → Codegen → Result (A × Codegen)) (r : Result ℕ)
    → ((n : ℕ) → r ≡ ok n → n < 256)
    → ((n : ℕ) → n < 256 → Post d (f n cg))
    → Post d (elim (lift r cg) [ ok (n, s) ↦ f n s | err e ↦ err e ])
lifted-Post f (ok n) small k = k n (small n refl)
lifted-Post f (err e) small k = failed

-- A patch writes an offset of at most 255.
pub resolve-Post : {d : ℕ} {cg : Codegen} (p : Patch) (t : ℕ) → Inv d cg → Post d (resolve p t cg)
unfolding resolve is_ja
resolve-Post (jt i) t v = lifted-Post _ (offset i t) (offset-small i t) (λ n s.
    modify_insn-Post i (λ x. record x { jt = n }) v
      (λ x g.
        let t = g.typed in
        record {
          typed = record { code_u16 = t.code_u16; jt_u8 = s; jf_u8 = t.jf_u8; k_u32 = t.k_u32 };
          canonical = g.canonical;
          short_ja = g.short_ja;
        }))
resolve-Post (jf i) t v = lifted-Post _ (offset i t) (offset-small i t) (λ n s.
    modify_insn-Post i (λ x. record x { jf = n }) v
      (λ x g.
        let t = g.typed in
        record {
          typed = record { code_u16 = t.code_u16; jt_u8 = t.jt_u8; jf_u8 = s; k_u32 = t.k_u32 };
          canonical = g.canonical;
          short_ja = g.short_ja;
        }))
resolve-Post (ja i) t v = lifted-Post _ (offset i t) (offset-small i t) (λ n s.
    modify_insn-Post i (λ x. record x { k = n }) v
      (λ x g.
        let t = g.typed in
        record {
          typed = record {
            code_u16 = t.code_u16;
            jt_u8 = t.jt_u8;
            jf_u8 = t.jf_u8;
            k_u32 = omega arith;
          };
          canonical = g.canonical;
          short_ja = λ _. s;
        }))

pub resolve_all-Post :
    {d : ℕ} {cg : Codegen} (ps : List Patch) (t : ℕ) → Inv d cg → Post d (resolve_all ps t cg)
unfolding resolve_all
resolve_all-Post [] t v = kept v
resolve_all-Post (p ∷ ps) t v = bind-Post (resolve-Post p t v) (λ _ cg w. resolve_all-Post ps t w)

link_net_offset-small : (l : LinkType) → link_net_offset l < 17
unfolding link_net_offset
link_net_offset-small ethernet = omega arith
link_net_offset-small raw_ip = omega arith
link_net_offset-small linux_sll = omega arith

pub net_offset-small : {d : ℕ} {cg : Codegen} → Inv d cg → net_offset cg < 2 ^ 23
unfolding net_offset
net_offset-small {cg = cg} v =
    let q = v.depth in let s = v.shallow in omega (arith, link_net_offset-small cg.link)

shifted-small :
    (l : LinkType) (d o : ℕ)
    → d < 2 ^ 20
    → shifted (link_ether_proto_offset l) d ≡ some o
    → o < 2 ^ 23
unfolding link_ether_proto_offset
shifted-small ethernet d o s e = ground arith
shifted-small linux_sll d o s e = ground arith
shifted-small raw_ip d o s e = absurd (ground arith)

pub ether_proto_offset-small :
    {d : ℕ} {cg : Codegen} → Inv d cg → (o : ℕ) → ether_proto_offset cg ≡ some o → o < 2 ^ 23
unfolding ether_proto_offset
ether_proto_offset-small {cg = cg} v o e =
    let q = v.depth in let s = v.shallow in shifted-small cg.link cg.vlan_depth o (omega arith) e
