-- ===== src/Elf/Or1k/Pass.antt =====
-- lib/ReaderWriter/ELF/OR1K/OR1KRelocationPass.cpp: the pass that makes entries of the global offset
-- table and of the procedure linkage table. A new atom takes the next free address, which is only a
-- name for it; its bytes, its name and its ordinal are left out.
pub mod Handlers
pub mod Entries
pub mod Null
pub mod Again
use lld_or1k.Base.{
  ℕ, ◌+◌, Bool, true, false, Option, none, some, List, [], ◌∷◌, ◌++◌, String, address_eq,
  if◌then◌else◌,
}
use lld_or1k.Base.Table.{Table, find, set}
use lld_or1k.Core.Atom.Permissions.{ContentType, type_resolver, type_got, type_stub, type_zero_fill}
use lld_or1k.Core.Atom.{
  Address, Memory, Atom, defined_atom, undefined_atom, shared_library_atom, absolute_atom,
  SharedLibraryType, data_symbol, code, unknown,
}
use lld_or1k.Core.Outcome.{Outcome, ok, assertion_failure, ◌>>=◌}
use lld_or1k.Elf.Or1k.Relocation.{
  Kind, r_none, r_32, r_16, r_8, r_lo_16_in_insn, r_hi_16_in_insn, r_insn_rel_26, r_32_pcrel,
  r_16_pcrel, r_8_pcrel, r_gotpc_hi16, r_gotpc_lo16, r_got16, r_plt26, r_gotoff_hi16, r_gotoff_lo16,
  r_copy, r_glob_dat, r_jmp_slot, r_relative, r_unhandled,
}

-- `addReferenceELF_OR1K(kind, offset, target, addend)`
pub record NewReference : Type 0 where
  pub kind : Kind
  pub offset : ℕ
  pub target : Option Address
  pub addend : ℕ

abbrev pub refers : Kind → ℕ → Address → NewReference
refers kind offset target = record {
  kind = kind;
  offset = offset;
  target = some target;
  addend = 0;
}

-- The atoms that the pass makes: OR1KGOTAtom with its section, OR1KPLTAtom and OR1KPLTPICAtom,
-- OR1KPLT0Atom and OR1KPLT0PICAtom, ObjectAtom.
pub data NewAtom : Type 0 where
  got_atom : String → List NewReference → NewAtom
  plt_atom : List NewReference → NewAtom
  plt0_atom : List NewReference → NewAtom
  object_atom : List NewReference → NewAtom

-- StaticRelocationPass and DynamicRelocationPass.
pub data Flavor : Type 0 where
  static_pass dynamic_pass : Flavor

-- RelocationPass; `made` and `next` stand for `_file._alloc`.
pub record Pass : Type 0 where
  pub made : Table Address NewAtom
  pub next : Address
  pub got_map : Table Address Address
  pub plt_map : Table Address Address
  pub object_map : Table Address Address
  pub got_vector : List Address
  pub plt_vector : List Address
  pub object_vector : List Address
  pub null : Option Address
  pub plt0 : Option Address
  pub got0 : Option Address
  pub got1 : Option Address

abbrev pub new_pass : Address → Pass
new_pass first = record {
  made = [];
  next = first;
  got_map = [];
  plt_map = [];
  object_map = [];
  got_vector = [];
  plt_vector = [];
  object_vector = [];
  null = none;
  plt0 = none;
  got0 = none;
  got1 = none;
}

-- `new (_file._alloc)`
abbrev pub allocate : NewAtom → Pass → Pass
allocate a s = record s { made = (s.next, a) ∷ s.made; next = s.next + 1 }

abbrev pub plt_references : Flavor → Address → List NewReference
plt_references static_pass ga =
    refers r_hi_16_in_insn 0 ga ∷ refers r_lo_16_in_insn 4 ga ∷ refers r_got16 16 ga ∷ []
plt_references dynamic_pass ga = refers r_got16 0 ga ∷ refers r_got16 4 ga ∷ []

abbrev pub plt0_references : Flavor → Address → List NewReference
plt0_references static_pass got0 =
    refers r_hi_16_in_insn 0 got0 ∷ refers r_lo_16_in_insn 4 got0 ∷ []
plt0_references dynamic_pass got0 = []

-- A new entry for `a` in both tables, and the address of its stub.
abbrev pub add_entry : Flavor → Address → List NewReference → Pass → Address × Pass
add_entry flavor a references s =
    let ga = s.next in
    let s1 = allocate (got_atom ".got.plt" references) s in
    let pa = s1.next in
    let s2 = allocate (plt_atom (plt_references flavor ga)) s1 in
    (
      pa,
      record s2 {
        got_map = set a ga s2.got_map;
        got_vector = s2.got_vector ++ ga ∷ [];
        plt_map = set a pa s2.plt_map;
        plt_vector = s2.plt_vector ++ pa ∷ [];
      },
    )

unfoldable pub get_ifunc_plt_entry : Flavor → Address → Pass → Address × Pass
get_ifunc_plt_entry flavor da s = elim (find da s.plt_map) [
  | some plt ↦ (plt, s)
  | none ↦ add_entry flavor da (refers r_relative 0 da ∷ []) s
]

unfoldable pub get_null_got : Pass → Address × Pass
get_null_got s = elim s.null [
  | some g ↦ (g, s)
  | none ↦ (s.next, record (allocate (got_atom ".got.plt" []) s) { null = some s.next })
]

-- `getGOT` and `getSharedGOT`, which differ in the relocation of the entry.
unfoldable pub get_got : Kind → Address → Pass → Address × Pass
get_got kind a s = elim (find a s.got_map) [
  | some got ↦ (got, s)
  | none ↦ (
    s.next,
    record (allocate (got_atom ".got" (refers kind 0 a ∷ [])) s) {
      got_map = set a s.next s.got_map;
      got_vector = s.got_vector ++ s.next ∷ [];
    },
  )
]

unfoldable pub get_plt0 : Flavor → Pass → Address × Pass
unfolding get_null_got
get_plt0 flavor s = elim s.plt0 [
  | some p ↦ (p, s)
  | none ↦
      let s1 = (get_null_got s).1 in
      let got0 = s1.next in
      let s2 = allocate (got_atom ".got.plt" []) s1 in
      let got1 = s2.next in
      let s3 = allocate (got_atom ".got.plt" []) s2 in
      let p = s3.next in
      (
        p,
        record (allocate (plt0_atom (plt0_references flavor got0)) s3) {
          got0 = some got0;
          got1 = some got1;
          plt0 = some p;
        },
      )
]

unfoldable pub get_plt_entry : Flavor → Address → Pass → Address × Pass
unfolding get_plt0
get_plt_entry flavor a s = elim (find a s.plt_map) [
  | some plt ↦ (plt, s)
  | none ↦ let (p, s1) = get_plt0 flavor s in add_entry flavor a (refers r_32 0 p ∷ []) s1
]

unfoldable pub get_object_entry : Address → Pass → Address × Pass
get_object_entry a s = elim (find a s.object_map) [
  | some o ↦ (o, s)
  | none ↦ (
    s.next,
    record (allocate (object_atom (refers r_copy 0 s.next ∷ [])) s) {
      object_map = set a s.next s.object_map;
      object_vector = s.object_vector ++ s.next ∷ [];
    },
  )
]

abbrev pub listed : Option Address → List Address
listed none = []
listed (some a) = a ∷ []

-- The atoms that `perform` adds to the file, in the order of their ordinals.
unfoldable pub added_atoms : Pass → List Address
added_atoms s =
    listed s.plt0
    ++ s.plt_vector
    ++ listed s.null
    ++ elim s.plt0 [ none ↦ [] | some p ↦ listed s.got0 ++ listed s.got1 ]
    ++ s.got_vector
    ++ s.object_vector
