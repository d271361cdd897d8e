-- ===== src/Core/Resolver.antt =====
-- include/lld/Core/Resolver.h and lib/Core/Resolver.cpp: the state, and the handlers that add atoms.
-- Each method takes the state and returns it; its name is the source's. Reading ahead in archives
-- (`maybePreloadArchiveMember`, `updatePreloadArchiveMap`) has no effect on the result and is left
-- out, as are messages. `members` is the `_membersInstantiated` of each archive, `ordinals` the
-- ordinal of each file that has one.
pub mod Live
pub mod Strip
pub mod Finish
pub mod Inputs
pub mod Fallback
use lld_or1k.Base.{
  ℕ, zero, suc, ◌+◌, Bool, true, false, not, ◌&&◌, ◌||◌, Option, none, some, List, [], ◌∷◌, ◌++◌,
  String, nat_eq, if◌then◌else◌, ◌==◌, length, contains, address_eq, name_eq,
}
use lld_or1k.Base.Table.{Table, find, set}
use lld_or1k.Core.Atom.{
  Address, Memory, Atom, defined_atom, undefined_atom, shared_library_atom, absolute_atom,
  DefinedAtom, Reference, atom_name, has_kind, kind_group_child, is_group_parent, type_index,
  DeadStripKind, strip_never,
}
use lld_or1k.Core.Context.{LinkingContext}
use lld_or1k.Core.File.{File, FileAddress}
use lld_or1k.Core.Outcome.{Outcome, ok, fatal_error, assertion_failure, out_of_fuel, ◌>>=◌}
use lld_or1k.Core.SymbolTable.{
  SymbolTable, empty_table, add, add_group, add_replacement, is_defined, is_local, is_empty,
}

pub record Resolver : Type 0 where
  pub memory : Memory
  pub symbol_table : SymbolTable
  pub atoms : List Address
  pub dead_strip_roots : List Address
  pub live_atoms : List Address
  pub dead_atoms : List Address
  pub reverse_ref : List (Address × Address)
  pub undefines : List String
  pub undefine_index : Table FileAddress ℕ
  pub new_undefines_added : Table FileAddress Bool
  pub members : Table FileAddress (List ℕ)
  pub ordinals : Table FileAddress ℕ
  pub next_ordinal : ℕ

abbrev pub new_resolver : Memory → Resolver
new_resolver mem = record {
  memory = mem;
  symbol_table = empty_table;
  atoms = [];
  dead_strip_roots = [];
  live_atoms = [];
  dead_atoms = [];
  reverse_ref = [];
  undefines = [];
  undefine_index = [];
  new_undefines_added = [];
  members = [];
  ordinals = [];
  next_ordinal = 0;
}

abbrev pub insert : Address → List Address → List Address
insert a l = if contains a l then l else a ∷ l

abbrev pub push_atom : Address → Resolver → Resolver
push_atom a r = record r { atoms = r.atoms ++ a ∷ [] }

abbrev is_strip_never : DeadStripKind → Bool
is_strip_never strip_never = true
is_strip_never _ = false

module _ (ctx : LinkingContext) where
  -- `_symbolTable.add(atom)`
  abbrev pub add_symbol : Address → Resolver → Outcome (Bool × Resolver)
  add_symbol a r = add r.memory ctx a r.symbol_table >>= λ result.
      ok (result.0, record r { symbol_table = result.1 })

  -- What `doUndefinedAtom` does after the table has answered `added`: the list of undefined names,
  -- and the fallback, by the call `again`.
  unfoldable pub after_undefined :
      (Address → Resolver → Outcome (Bool × Resolver))
      → Address
      → Option Address
      → Bool
      → Resolver
      → Outcome (Bool × Resolver)
  unfolding add_replacement
  after_undefined again a fallback added r =
      let name = atom_name (r.memory a) in
      let r1 = if added then record r { undefines = r.undefines ++ name ∷ [] } else r in
      if added || not (is_defined r1.memory name r1.symbol_table)
      then elim fallback [
        | none ↦ ok (added, r1)
        | some f ↦ again f r1 >>= λ result.
            let r2 = result.1 in
            ok (added, record r2 { symbol_table = add_replacement a f r2.symbol_table })
      ]
      else ok (added, r1)

  -- On fuel, since an atom's fallback may have a fallback of its own.
  unfoldable pub do_undefined_atom : ℕ → Address → Resolver → Outcome (Bool × Resolver)
  do_undefined_atom zero a r = out_of_fuel
  do_undefined_atom (suc fuel) a r = elim (r.memory a) [
    | undefined_atom u ↦ add_symbol a (push_atom a r) >>= λ result.
        after_undefined (do_undefined_atom fuel) a u.fallback result.0 result.1
    | _ ↦ assertion_failure
  ]

  -- The loop over a group's children.
  unfoldable pub add_group_children : List Reference → Resolver → Outcome Resolver
  add_group_children [] r = ok r
  add_group_children (ref ∷ refs) r =
      let rest = λ (r' : Resolver). add_group_children refs r' in
      if has_kind kind_group_child ref
      then elim (r.memory ref.target) [
        | defined_atom d ↦
            add_symbol ref.target (push_atom ref.target r) >>= λ result. rest result.1
        | _ ↦ assertion_failure
      ]
      else rest r

  unfoldable pub maybe_add_section_group_or_gnu_link_once :
      Address → DefinedAtom → Resolver → Outcome Resolver
  unfolding add_group_children
  maybe_add_section_group_or_gnu_link_once a d r =
      let (first, t) = add_group r.memory a r.symbol_table in
      let r1 = record r { symbol_table = t } in
      if is_empty d.name
      then assertion_failure
      else if first
      then add_group_children d.references r1
      else if ctx.allow_duplicates
      then ok r1
      else elim (find d.name t.group_table) [
        | none ↦ assertion_failure
        | some p ↦ elim (r.memory p) [
          | defined_atom prev ↦
              if nat_eq (type_index d.content_type) (type_index prev.content_type)
              then ok r1
              else fatal_error
          | _ ↦ assertion_failure
        ]
      ]

  unfoldable pub do_defined_atom : Address → Resolver → Outcome Resolver
  unfolding maybe_add_section_group_or_gnu_link_once
  do_defined_atom a r = elim (r.memory a) [
    | defined_atom d ↦
        (if is_group_parent d
          then maybe_add_section_group_or_gnu_link_once a d (push_atom a r)
          else (add_symbol a (push_atom a r) >>= λ result. ok result.1))
        >>= λ r1. ok (
            if ctx.dead_strip && is_strip_never d.dead_strip
            then record r1 { dead_strip_roots = insert a r1.dead_strip_roots }
            else r1)
    | _ ↦ assertion_failure
  ]

  unfoldable pub do_shared_library_atom : Address → Resolver → Outcome Resolver
  do_shared_library_atom a r = add_symbol a (push_atom a r) >>= λ result. ok result.1

  unfoldable pub do_absolute_atom : Address → Resolver → Outcome Resolver
  do_absolute_atom a r = elim (r.memory a) [
    | absolute_atom x ↦
        if is_local x.scope
        then ok (push_atom a r)
        else (add_symbol a (push_atom a r) >>= λ result. ok result.1)
    | _ ↦ assertion_failure
  ]

  -- `for (const Atom *atom : atoms) handler(atom)`
  unfoldable pub for_each {ℓ} :
      {S : Type ℓ} → (Address → S → Outcome S) → List Address → S → Outcome S
  for_each handler [] s = ok s
  for_each handler (a ∷ rest) s = handler a s >>= λ next. for_each handler rest next

  -- One round of the second loop of `handleFile`: the flag is `undefAdded`.
  abbrev pub do_undefined_and_note : ℕ → Address → Bool × Resolver → Outcome (Bool × Resolver)
  do_undefined_and_note fuel a s =
      do_undefined_atom fuel a s.1 >>= λ result. ok (result.0 || s.0, result.1)

  unfoldable pub handle_file : ℕ → File → Resolver → Outcome (Bool × Resolver)
  unfolding for_each do_undefined_atom do_defined_atom do_shared_library_atom do_absolute_atom
  handle_file fuel file r = for_each do_defined_atom file.defined r >>= λ r1.
      for_each (do_undefined_and_note fuel) file.undefined (false, r1) >>= λ s.
      for_each do_shared_library_atom file.shared_library s.1 >>= λ r3.
      for_each do_absolute_atom file.absolute r3 >>= λ r4. ok (s.0, r4)
