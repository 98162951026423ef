-- ===== src/Ebpf/State.antt =====
-- pktbaffle/src/ebpf_codegen.rs: the state of the eBPF compiler, patches, and their resolution.
-- A method of `&mut self` takes the state and returns the new one, or an error. `panicked` is a panic: an
-- index out of bounds, a failed `expect` or a failed `debug_assert!`.
use pktbaffle.Prelude.{
  ℕ, ◌-◌, List, [], ◌∷◌, ◌++◌, Option, none, some, ltb, if◌then◌else◌, length, get_elem?, set,
}
use pktbaffle.Ast.{Proto}
use pktbaffle.Codegen.Facts.{LinkType}
use pktbaffle.Ebpf.{Insn}

-- A slot whose `off` field is filled in later.
pub data Patch : Type 0 where
  slot : ℕ → Patch

pub record Patches : Type 0 where
  pub success : List Patch
  pub failure : List Patch

abbrev pub no_patches : Patches
no_patches = record { success = []; failure = [] }

abbrev pub fails : List Patch → Patches
fails ps = record { success = []; failure = ps }

-- The `CodegenError`s, one constructor for each message.
pub data CodegenError : Type 0 where
  jump_offset_overflow : CodegenError
  ethertype_on_raw_ip : ℕ → CodegenError
  direction_unsupported : CodegenError
  port_proto_unsupported : Option Proto → CodegenError
  ether_host_on_raw_ip ether_multicast_on_raw_ip mpls_on_raw_ip load_compare_unsupported :
      CodegenError
  division_by_zero modulo_unsupported : CodegenError
  panicked : CodegenError

pub data Result {ℓ} (A : Type ℓ) : Type ℓ where
  ok : A → Result A
  err : CodegenError → Result A

pub record Codegen : Type 0 where
  pub insns : List Insn
  pub link : LinkType

abbrev pub M : Type 0 → Type 0
M A = Codegen → Result (A × Codegen)

infixl 5 ◌>>=◌ ◌>>◌
abbrev pub ◌>>=◌ : {A B : Type 0} → M A → (A → M B) → M B
◌>>=◌ m f cg = elim (m cg) [ ok (a, cg') ↦ f a cg' | err e ↦ err e ]

abbrev pub ◌>>◌ : {A B : Type 0} → M A → M B → M B
◌>>◌ m k cg = elim (m cg) [ ok (a, cg') ↦ k cg' | err e ↦ err e ]

abbrev pub pure : {A : Type 0} → A → M A
pure a cg = ok (a, cg)

abbrev pub throw : {A : Type 0} → CodegenError → M A
throw e cg = err e

-- `self.link`, and `self.insns.len()`.
abbrev pub the_link : M LinkType
the_link cg = ok (cg.link, cg)

unfoldable pub here : M ℕ
here cg = ok (length cg.insns, cg)

unfoldable pub new : LinkType → Codegen
new link = record { insns = []; link = link }

unfoldable pub push : Insn → M ℕ
push i cg = ok (length cg.insns, record cg { insns = cg.insns ++ (i ∷ []) })

abbrev pub i16_max : ℕ
i16_max = 32767

-- `self.insns[from].off = diff`.
abbrev pub set_off : ℕ → ℕ → M (Unit {0})
set_off from diff cg = elim (get_elem? cg.insns from) [
  | none ↦ err panicked
  | some x ↦ ok (tt, record cg { insns = set cg.insns from (record x { off = diff }) })
]

unfoldable pub resolve : Patch → ℕ → M (Unit {0})
resolve (slot from) target_idx =
    if ltb from target_idx
    then (if ltb i16_max (target_idx - from - 1)
        then throw jump_offset_overflow
        else set_off from (target_idx - from - 1))
    else throw panicked

unfoldable pub resolve_all : List Patch → ℕ → M (Unit {0})
resolve_all [] target_idx = pure tt
resolve_all (p ∷ ps) target_idx = do resolve p target_idx; resolve_all ps target_idx
