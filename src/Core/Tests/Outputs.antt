-- ===== src/Core/Tests/Outputs.antt =====
-- Whole links, an archive asked twice, and an undefined atom that falls back to its own name.
use lld_or1k.Base.{
  ℕ, ◌≡◌, refl, true, false, none, some, List, [], ◌∷◌, nat_eq, if◌then◌else◌, contains, address_eq,
  arith, name_eq,
}
use lld_or1k.Base.Table.{find, set}
use lld_or1k.Core.Atom.{
  Address, Memory, defined_atom, undefined_atom, UndefinedAtom, at_runtime, as_weak, Reference,
  kind_associate, all,
}
use lld_or1k.Core.Context.{LinkingContext}
use lld_or1k.Core.File.Members.{archive_find-once}
use lld_or1k.Core.File.{File, FileAddress, file_node, object, archive_library, archive_find}
use lld_or1k.Core.Outcome.{ok}
use lld_or1k.Core.Resolver.Fallback.{do_undefined_atom-cycle}
use lld_or1k.Core.Resolver.Inputs.Output.{Excused, HasNoOwner, resolve-output, resolve-no_undefines}
use lld_or1k.Core.Resolver.Inputs.{resolve, resolve_loop, get_file, process_file}
use lld_or1k.Core.Resolver.Finish.{
  update_references, update_targets, check_undefines, any_reported, reported_at,
  remove_coalesced_away_atoms,
}
use lld_or1k.Core.Resolver.Strip.{dead_strip_optimize, keep_if}
use lld_or1k.Core.Resolver.{Resolver, new_resolver, after_undefined, do_undefined_atom}
use lld_or1k.Core.SymbolTable.{chase, add, undefines_in, replacement, is_coalesced_away}
use lld_or1k.Core.Tests.Samples.{context, function, reference_to, undefined_named}

abbrev weak : UndefinedAtom
weak = record (undefined_named "w") { can_be_null = at_runtime }

abbrev looping : UndefinedAtom
looping = record (undefined_named "x") { fallback = some 31 }

-- 20 `main` calls 21, an undefined `f`, and 22, an undefined weak `w`; 23 defines `f`; 24 is not used.
abbrev program : Memory
program a =
    if nat_eq a 20
    then defined_atom (function "main" (reference_to 21 ∷ reference_to 22 ∷ []))
    else if nat_eq a 21
    then undefined_atom (undefined_named "f")
    else if nat_eq a 22
    then undefined_atom weak
    else if nat_eq a 23
    then defined_atom (function "f" [])
    else if nat_eq a 30
    then undefined_atom looping
    else if nat_eq a 31
    then undefined_atom (undefined_named "x")
    else defined_atom (function "unused" [])

abbrev no_file : File
no_file = record {
  kind = object;
  parses = true;
  defined = [];
  undefined = [];
  shared_library = [];
  absolute = [];
  symbol_member_map = [];
  instantiate = λ start. none;
  is_data_symbol = λ start name. false;
  exports = λ name data_only. none;
}

-- The archive's member that starts at 68 defines `f` and `g`.
abbrev library : File
library = record no_file {
  kind = archive_library;
  symbol_member_map = ("f", 68) ∷ ("g", 68) ∷ ("h", 200) ∷ [];
  instantiate = λ start. some (if nat_eq start 68 then 3 else 4);
}

abbrev input : FileAddress → File
input f =
    if nat_eq f 1
    then record no_file { defined = 20 ∷ 24 ∷ []; undefined = 21 ∷ 22 ∷ [] }
    else if nat_eq f 2
    then library
    else if nat_eq f 3
    then record no_file { defined = 23 ∷ [] }
    else no_file

abbrev linked_state : Resolver
unfolding resolve resolve_loop find set add after_undefined update_references update_targets
    replacement dead_strip_optimize check_undefines any_reported undefines_in reported_at keep_if
    get_file process_file remove_coalesced_away_atoms
linked_state =
    elim (resolve context input 12 (file_node 1 ∷ file_node 2 ∷ []) (new_resolver program)) [
      | ok s ↦ s.1
      | _ ↦ new_resolver program
    ]

abbrev linked_atoms : List Address
linked_atoms = 20 ∷ 22 ∷ 23 ∷ []

linked :
    resolve context input 12 (file_node 1 ∷ file_node 2 ∷ []) (new_resolver program)
    ≡ ok (some linked_atoms, linked_state)
unfolding resolve resolve_loop find set add after_undefined update_references update_targets
    replacement dead_strip_optimize check_undefines any_reported undefines_in reported_at keep_if
    get_file process_file remove_coalesced_away_atoms
linked = refl

-- 40 and 41 both define `f`, 41 weakly; 42 goes away with 41.
abbrev associate_to : Address → Reference
associate_to a = record (reference_to a) { kind_namespace = all; kind_value = kind_associate }

abbrev associates : Memory
associates a =
    if nat_eq a 20
    then defined_atom (function "main" (reference_to 41 ∷ []))
    else if nat_eq a 40
    then defined_atom (function "f" [])
    else if nat_eq a 41
    then defined_atom (record (function "f" (associate_to 42 ∷ [])) { merge = as_weak })
    else defined_atom (function "table" [])

abbrev whole : LinkingContext
whole = record context { dead_strip = false }

abbrev one_file : FileAddress → File
one_file f = record no_file { defined = 20 ∷ 40 ∷ 41 ∷ 42 ∷ [] }

abbrev associated_state : Resolver
unfolding resolve resolve_loop find set add after_undefined update_references update_targets
    replacement dead_strip_optimize check_undefines any_reported undefines_in reported_at keep_if
    get_file process_file remove_coalesced_away_atoms
associated_state = elim (resolve whole one_file 12 (file_node 1 ∷ []) (new_resolver associates)) [
  | ok s ↦ s.1
  | _ ↦ new_resolver associates
]

associated :
    resolve whole one_file 12 (file_node 1 ∷ []) (new_resolver associates)
    ≡ ok (some (20 ∷ 40 ∷ []), associated_state)
unfolding resolve resolve_loop find set add after_undefined update_references update_targets
    replacement dead_strip_optimize check_undefines any_reported undefines_in reported_at keep_if
    get_file process_file remove_coalesced_away_atoms
associated = refl

resolve-output_example :
    (resolved : Resolver) × (resolve_loop whole one_file 12
        (file_node 1 ∷ [])
        0
        []
        (new_resolver associates)
      ≡ ok (true, resolved))
    × ((x : Address)
        → contains x (20 ∷ 40 ∷ []) ≡ true
        → (is_coalesced_away x resolved.symbol_table ≡ false)
          × HasNoOwner whole one_file resolved x)
resolve-output_example =
    resolve-output whole one_file 12 (file_node 1 ∷ []) (new_resolver associates) associated_state
      (20 ∷ 40 ∷ []) associated

-- The weak `w` is still undefined, and can be null.
resolve-no_undefines_example : Excused context input linked_state 22 weak
unfolding resolve resolve_loop find set add after_undefined update_references update_targets
    replacement dead_strip_optimize check_undefines any_reported undefines_in reported_at keep_if
    get_file process_file remove_coalesced_away_atoms
resolve-no_undefines_example =
    resolve-no_undefines context input 12 (file_node 1 ∷ file_node 2 ∷ []) (new_resolver program)
      linked_state linked_atoms linked refl "w" 22 weak refl refl

archive_find-once_example :
    ¬ (find "f" library.symbol_member_map ≡ find "h" library.symbol_member_map)
unfolding archive_find find
archive_find-once_example =
    archive_find-once library "f" "h" false false [] (68 ∷ []) (68 ∷ []) (200 ∷ 68 ∷ []) 3 4 refl
      (λ x m. m) refl

do_undefined_atom-cycle_example :
    (after : Resolver) × (do_undefined_atom context 2 30 (new_resolver program) ≡ ok (true, after))
    × ((rounds : ℕ)
        → (chase rounds after.symbol_table.replaced_atoms 30 ≡ none)
          × (chase rounds after.symbol_table.replaced_atoms 31 ≡ none))
unfolding find
do_undefined_atom-cycle_example =
    do_undefined_atom-cycle context (new_resolver program) 30 31 looping (undefined_named "x") 0
      (λ e n b. refl) refl refl (λ e. ground arith) refl refl refl refl refl refl
