-- ===== src/Elf/Or1k/Pass/Handlers.antt =====
-- The handlers of OR1KRelocationPass.cpp: which entry a reference is led to.
use lld_or1k.Base.{Bool, true, false, Option, none, some, List, [], ◌∷◌, address_eq, if◌then◌else◌}
use lld_or1k.Base.Table.{find}
use lld_or1k.Core.Atom.Permissions.{ContentType, type_resolver, type_got, type_stub, type_zero_fill}
use lld_or1k.Core.Atom.{
  Address, Memory, Atom, defined_atom, undefined_atom, shared_library_atom, absolute_atom,
  SharedLibraryType, data_symbol, code, unknown,
}
use lld_or1k.Core.Outcome.{Outcome, ok, assertion_failure, ◌>>=◌}
use lld_or1k.Elf.Or1k.Pass.{
  NewAtom, got_atom, plt_atom, plt0_atom, object_atom, Flavor, static_pass, dynamic_pass, Pass,
  get_ifunc_plt_entry, get_null_got, get_got, get_plt_entry, get_object_entry,
}
use lld_or1k.Elf.Or1k.Relocation.{
  Kind, r_none, r_32, r_32_pcrel, r_got16, r_plt26, r_copy, r_glob_dat, r_jmp_slot, r_relative,
  r_unhandled,
}

-- What `dyn_cast` tells of an atom.
pub data Class : Type 0 where
  defined_class : ContentType → Class
  undefined_class absolute_class : Class
  shared_class : SharedLibraryType → Class

abbrev pub class_of_new : NewAtom → Class
class_of_new (got_atom section references) = defined_class type_got
class_of_new (plt_atom references) = defined_class type_stub
class_of_new (plt0_atom references) = defined_class type_stub
class_of_new (object_atom references) = defined_class type_zero_fill

abbrev pub class_of : Atom → Class
class_of (defined_atom d) = defined_class d.content_type
class_of (undefined_atom u) = undefined_class
class_of (shared_library_atom a) = shared_class a.type
class_of (absolute_atom a) = absolute_class

abbrev pub is_resolver : ContentType → Bool
is_resolver type_resolver = true
is_resolver _ = false

-- A reference as the pass reads and changes it; `none` is a null target.
pub record PassReference : Type 0 where
  pub is_elf : Bool
  pub is_or1k : Bool
  pub kind : Kind
  pub target : Option Address

abbrev pub set_target : PassReference → Address × Pass → PassReference × Pass
set_target ref found = (record ref { target = some found.0 }, found.1)

module _ (mem : Memory) (flavor : Flavor) where
  unfoldable pub class_at : Address → Pass → Class
  class_at a s = elim (find a s.made) [ some n ↦ class_of_new n | none ↦ class_of (mem a) ]

  unfoldable pub handle_ifunc : PassReference → Pass → PassReference × Pass
  unfolding get_ifunc_plt_entry class_at
  handle_ifunc ref s = elim ref.target [
    | none ↦ (ref, s)
    | some a ↦ elim (class_at a s) [
      | defined_class type ↦
          if is_resolver type then set_target ref (get_ifunc_plt_entry flavor a s) else (ref, s)
      | _ ↦ (ref, s)
    ]
  ]

  unfoldable pub handle_plain : PassReference → Pass → Outcome (PassReference × Pass)
  unfolding handle_ifunc get_object_entry get_plt_entry
  handle_plain ref s = elim flavor [
    | static_pass ↦ ok (handle_ifunc ref s)
    | dynamic_pass ↦ elim ref.target [
      | none ↦ ok (ref, s)
      | some a ↦ elim (class_at a s) [
        | shared_class data_symbol ↦ ok (set_target ref (get_object_entry a s))
        | shared_class code ↦ ok (set_target ref (get_plt_entry dynamic_pass a s))
        | shared_class unknown ↦ assertion_failure
        | _ ↦ ok (handle_ifunc ref s)
      ]
    ]
  ]

  -- The second half of the static `handleGOT`, and the first of the dynamic one.
  unfoldable pub got_of_defined : PassReference → Pass → PassReference × Pass
  unfolding get_got class_at
  got_of_defined ref s = elim ref.target [
    | none ↦ (ref, s)
    | some a ↦ elim (class_at a s) [
      | defined_class type ↦ set_target ref (get_got r_32 a s)
      | _ ↦ (ref, s)
    ]
  ]

  -- A null target fails the assertion of `isa`.
  unfoldable pub handle_got : PassReference → Pass → Outcome (PassReference × Pass)
  unfolding got_of_defined get_null_got
  handle_got ref s = elim ref.target [
    | none ↦ assertion_failure
    | some a ↦ elim flavor [
      | static_pass ↦ elim (class_at a s) [
        | undefined_class ↦
            let (ref1, s1) = set_target ref (get_null_got s) in ok (got_of_defined ref1 s1)
        | _ ↦ ok (got_of_defined ref s)
      ]
      | dynamic_pass ↦ elim (class_at a s) [
        | shared_class type ↦ ok (set_target ref (get_got r_glob_dat a s))
        | undefined_class ↦ ok (set_target ref (get_got r_glob_dat a s))
        | _ ↦ ok (got_of_defined ref s)
      ]
    ]
  ]

  unfoldable pub handle_plt : PassReference → Pass → Outcome (PassReference × Pass)
  unfolding handle_ifunc get_plt_entry
  handle_plt ref s = elim flavor [
    | static_pass ↦ ok (handle_ifunc (record ref { kind = r_32_pcrel }) s)
    | dynamic_pass ↦ elim ref.target [
      | none ↦ assertion_failure
      | some a ↦ elim (class_at a s) [
        | shared_class type ↦ ok (set_target ref (get_plt_entry dynamic_pass a s))
        | undefined_class ↦ ok (set_target ref (get_plt_entry dynamic_pass a s))
        | _ ↦ ok (handle_ifunc ref s)
      ]
    ]
  ]

  -- What a relocation kind asks of the pass.
  unfoldable pub handle_kind : Kind → PassReference → Pass → Outcome (PassReference × Pass)
  unfolding handle_got handle_plt handle_plain
  handle_kind r_none ref s = ok (ref, s)
  handle_kind r_relative ref s = ok (ref, s)
  handle_kind r_copy ref s = ok (ref, s)
  handle_kind r_glob_dat ref s = ok (ref, s)
  handle_kind r_jmp_slot ref s = ok (ref, s)
  handle_kind r_got16 ref s = handle_got ref s
  handle_kind r_plt26 ref s = handle_plt ref s
  handle_kind r_unhandled ref s = assertion_failure
  handle_kind _ ref s = handle_plain ref s

  unfoldable pub handle_reference : PassReference → Pass → Outcome (PassReference × Pass)
  unfolding handle_kind
  handle_reference ref s =
      if ref.is_elf
      then if ref.is_or1k then handle_kind ref.kind ref s else assertion_failure
      else ok (ref, s)

  -- The loops of `perform` over all references.
  unfoldable pub handle_all : List PassReference → Pass → Outcome (List PassReference × Pass)
  unfolding handle_reference
  handle_all [] s = ok ([], s)
  handle_all (ref ∷ refs) s = handle_reference ref s >>= λ first.
      handle_all refs first.1 >>= λ rest. ok (first.0 ∷ rest.0, rest.1)
