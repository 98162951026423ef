-- ===== src/Codegen/State.antt =====
-- pktbaffle/src/codegen.rs: the state of the compiler, patches, and their resolution.
-- A method of `&mut self` takes the state and returns the new one, or an error. `panicked` is a
-- panic: an index out of bounds or a failed `expect`. Offsets are plain numbers where the source
-- adds without a cast from the filter; where it adds a filter's offset, the sum is taken % 2 ^ 32.
use pktbaffle.Prelude.{
  ℕ, ◌+◌, ◌-◌, ◌*◌, List, [], ◌∷◌, ◌++◌, Bool, true, false, ◌||◌, Option, none, some, ltb, ◌==◌,
  if◌then◌else◌, length, get_elem?, set, bit_and, bit_or,
}
use pktbaffle.Bpf.{Insn, bpf_ldx, bpf_misc, bpf_tax}
use pktbaffle.Ast.{Proto}
use pktbaffle.Codegen.Facts.{LinkType, raw_ip, link_net_offset, link_ether_proto_offset, Facts}

-- A slot whose offset is filled in later.
pub data Patch : Type 0 where
  jt jf ja : ℕ → Patch

pub record Patches : Type 0 where
  pub success : List Patch
  pub failure : List Patch

abbrev pub no_patches : Patches
no_patches = record { success = []; failure = [] }

-- The `CodegenError`s, one constructor for each message.
pub data CodegenError : Type 0 where
  port_proto_unsupported : Option Proto → CodegenError
  offset_exceeds_255 : CodegenError
  ethertype_on_raw_ip : ℕ → CodegenError
  direction_unsupported : CodegenError
  ether_host_on_raw_ip ether_multicast_on_raw_ip mpls_on_raw_ip byte_access_on_raw_ip : CodegenError
  division_by_zero modulo_unsupported : CodegenError
  panicked : CodegenError

pub data Result {ℓ} (A : Type ℓ) : Type ℓ where
  ok : A → Result A
  err : CodegenError → Result A

pub record Codegen : Type 0 where
  pub insns : List Insn
  pub link : LinkType
  pub facts : Facts
  pub x_writes : ℕ
  pub vlan_depth : ℕ

abbrev pub M : Type 0 → Type 0
M A = Codegen → Result (A × Codegen)

infixl 5 ◌>>=◌ ◌>>◌
abbrev pub ◌>>=◌ : {A B : Type 0} → M A → (A → M B) → M B
◌>>=◌ m f cg = elim (m cg) [ ok (a, cg') ↦ f a cg' | err e ↦ err e ]

abbrev pub ◌>>◌ : {A B : Type 0} → M A → M B → M B
◌>>◌ m k cg = elim (m cg) [ ok (a, cg') ↦ k cg' | err e ↦ err e ]

abbrev pub pure : {A : Type 0} → A → M A
pure a cg = ok (a, cg)

abbrev pub throw : {A : Type 0} → CodegenError → M A
throw e cg = err e

abbrev pub get : M Codegen
get cg = ok (cg, cg)

abbrev pub set_facts : Facts → M (Unit {0})
set_facts f cg = ok (tt, record cg { facts = f })

abbrev pub initial_facts : LinkType → Facts
initial_facts link = record {
  ethertype = elim link [ raw_ip ↦ some 0x0800 | _ ↦ none ];
  ip4_proto = none;
  ip6_nh = none;
  ports_ready = none;
}

-- `Codegen::new`.
unfoldable pub new : LinkType → Codegen
new link = record {
  insns = [];
  link = link;
  facts = initial_facts link;
  x_writes = 0;
  vlan_depth = 0;
}

unfoldable pub net_offset : Codegen → ℕ
unfolding link_net_offset
net_offset cg = link_net_offset cg.link + cg.vlan_depth * 4

abbrev pub shifted : Option ℕ → ℕ → Option ℕ
shifted none d = none
shifted (some o) d = some (o + d * 4)

unfoldable pub ether_proto_offset : Codegen → Option ℕ
unfolding link_ether_proto_offset
ether_proto_offset cg = shifted (link_ether_proto_offset cg.link) cg.vlan_depth

-- `self.link.ether_proto_offset().is_some()`.
unfoldable pub link_has_ether : LinkType → Bool
unfolding link_ether_proto_offset
link_has_ether link = elim (link_ether_proto_offset link) [ some _ ↦ true | none ↦ false ]

unfoldable pub writes_x : Insn → Bool
writes_x i = bit_and i.code 0x07 == bpf_ldx || i.code == bit_or bpf_misc bpf_tax

unfoldable pub push : Insn → M ℕ
unfolding writes_x
push i cg = ok (
  length cg.insns,
  (if writes_x i
      then record cg {
        insns = cg.insns ++ (i ∷ []);
        facts = record (cg.facts) { ports_ready = none };
        x_writes = cg.x_writes + 1;
      }
      else record cg { insns = cg.insns ++ (i ∷ []) }),
)

-- `Codegen::offset`. The subtraction does not go below 0: `to` lies behind `from`.
unfoldable pub offset : ℕ → ℕ → Result ℕ
offset from to = if ltb 255 (to - from - 1) then err offset_exceeds_255 else ok (to - from - 1)

abbrev pub modify_insn : ℕ → (Insn → Insn) → M (Unit {0})
modify_insn i f cg = elim (get_elem? cg.insns i) [
  | none ↦ err panicked
  | some x ↦ ok (tt, record cg { insns = set cg.insns i (f x) })
]

abbrev pub lift : {A : Type 0} → Result A → M A
lift (ok a) cg = ok (a, cg)
lift (err e) cg = err e

unfoldable pub resolve : Patch → ℕ → M (Unit {0})
unfolding offset
resolve (jt i) target = do off ← lift (offset i target); modify_insn i (λ x. record x { jt = off })
resolve (jf i) target = do off ← lift (offset i target); modify_insn i (λ x. record x { jf = off })
resolve (ja i) target = do off ← lift (offset i target); modify_insn i (λ x. record x { k = off })

unfoldable pub resolve_all : List Patch → ℕ → M (Unit {0})
unfolding resolve
resolve_all [] target = pure tt
resolve_all (p ∷ ps) target = do resolve p target; resolve_all ps target

-- The shorter list is appended to the longer.
unfoldable pub concat : List Patch → List Patch → List Patch
concat a b = if ltb (length a) (length b) then b ++ a else a ++ b
