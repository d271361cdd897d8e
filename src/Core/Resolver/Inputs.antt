-- ===== src/Core/Resolver/Inputs.antt =====
-- The walk over the input files: `forEachUndefines`, `handleArchiveFile`, `handleSharedLibrary`,
-- `undefinesAdded`, `getFile`, `resolveUndefines` and `resolve` of lib/Core/Resolver.cpp. `files`
-- is what stands at each file's address, `nodes` the command line's inputs; loops take fuel.
pub mod Groups
pub mod Output
use lld_or1k.Base.{
  ℕ, zero, suc, ◌+◌, ◌-◌, Bool, true, false, not, ◌&&◌, ◌||◌, Option, none, some, List, [], ◌∷◌,
  String, if◌then◌else◌, ◌==◌, ltb, length, get_elem?, contains, address_eq, name_eq,
}
use lld_or1k.Base.Table.{Table, find, set}
use lld_or1k.Core.Atom.{Address, Memory, Atom, is_undefined}
use lld_or1k.Core.Context.{LinkingContext}
use lld_or1k.Core.File.{
  File, FileAddress, Node, file_node, group_end, archive_find, FileKind, object, archive_library,
  shared_library_file,
}
use lld_or1k.Core.Outcome.{Outcome, ok, assertion_failure, out_of_fuel, ◌>>=◌}
use lld_or1k.Core.Resolver.Finish.{update_references, check_undefines, remove_coalesced_away_atoms}
use lld_or1k.Core.Resolver.Strip.{dead_strip_optimize}
use lld_or1k.Core.Resolver.{Resolver, handle_file, do_shared_library_atom}
use lld_or1k.Core.SymbolTable.{
  find_by_name, is_coalesced_away, is_tentative, tentative_definitions, is_empty,
}

-- `_undefines[i] = ""`
abbrev pub clear_at : List String → ℕ → List String
clear_at [] i = []
clear_at (n ∷ ns) zero = "" ∷ ns
clear_at (n ∷ ns) (suc i) = n ∷ clear_at ns i

abbrev pub get_index : FileAddress → Table FileAddress ℕ → ℕ
get_index f t = elim (find f t) [ none ↦ 0 | some i ↦ i ]

-- A callback has the state and, by reference, a flag.
abbrev pub Callback : Type 0
Callback = String → Bool → Bool × Resolver → Outcome (Bool × Resolver)

-- The name was resolved by some other file; the assertion is that of `isa` on a null pointer.
unfoldable pub is_resolved : String → Resolver → Outcome Bool
unfolding is_coalesced_away
is_resolved name r = elim (find_by_name name r.symbol_table) [
  | none ↦ assertion_failure
  | some a ↦ ok (not (is_undefined (r.memory a)) || is_coalesced_away a r.symbol_table)
]

-- The inner `for` loop, from `i` to the end of `_undefines`; returns the last `i`.
unfoldable pub scan_undefines : ℕ → Callback → ℕ → Bool × Resolver → Outcome (ℕ × Bool × Resolver)
unfolding is_resolved
scan_undefines zero callback i s = out_of_fuel
scan_undefines (suc fuel) callback i s = elim (get_elem? s.1.undefines i) [
  | none ↦ ok (i, s.0, s.1)
  | some name ↦
      let skip = scan_undefines fuel callback (i + 1) s in
      if is_empty name
      then skip
      else (is_resolved name s.1 >>= λ done.
          let cleared =
            scan_undefines fuel callback (i + 1)
              (s.0, record s.1 { undefines = clear_at s.1.undefines i }) in
          let called =
            callback name false s >>= λ next. scan_undefines fuel callback (i + 1) next in
          if done then cleared else called)
]

-- The loop over the tentative definitions, whose list is made once.
unfoldable pub scan_tentative : Callback → List String → Bool × Resolver → Outcome (Bool × Resolver)
scan_tentative callback [] s = ok s
scan_tentative callback (name ∷ names) s = elim (find_by_name name s.1.symbol_table) [
  | none ↦ assertion_failure
  | some a ↦ (if is_tentative (s.1.memory a) then callback name true s else ok s) >>= λ next.
      scan_tentative callback names next
]

-- The `do … while` loop. `continue` goes to its test.
unfoldable pub undefines_loop :
    ℕ → Bool → Callback → ℕ → Bool × Resolver → Outcome (ℕ × Bool × Resolver)
unfolding scan_undefines scan_tentative
undefines_loop zero overrides callback i s = out_of_fuel
undefines_loop (suc fuel) overrides callback i s =
    scan_undefines (suc fuel) callback i s >>= λ scanned.
    (if overrides
      then scan_tentative callback (tentative_definitions scanned.2.memory scanned.2.symbol_table)
          (scanned.1, scanned.2)
      else ok (scanned.1, scanned.2))
    >>= λ next.
        let again = undefines_loop fuel overrides callback scanned.0 next in
        if ltb scanned.0 (length next.1.undefines) then again else ok (scanned.0, next.0, next.1)

unfoldable pub for_each_undefines :
    ℕ → FileAddress → Bool → Callback → Bool × Resolver → Outcome (Bool × Resolver)
unfolding undefines_loop
for_each_undefines fuel file overrides callback s =
    undefines_loop fuel overrides callback (get_index file s.1.undefine_index) s >>= λ result.
    ok (result.1, record result.2 { undefine_index = set file result.0 result.2.undefine_index })

abbrev pub set_ordinal : FileAddress → Resolver → Resolver
set_ordinal f r = record r {
  ordinals = set f r.next_ordinal r.ordinals;
  next_ordinal = r.next_ordinal + 1;
}

abbrev pub has_ordinal : FileAddress → Resolver → Bool
has_ordinal f r = elim (find f r.ordinals) [ none ↦ false | some _ ↦ true ]

abbrev pub instantiated_of : FileAddress → Resolver → List ℕ
instantiated_of f r = elim (find f r.members) [ none ↦ [] | some l ↦ l ]

-- `_newUndefinesAdded[file]`
abbrev pub has_new_undefines : FileAddress → Table FileAddress Bool → Bool
has_new_undefines f t = elim (find f t) [ none ↦ false | some b ↦ b ]

-- The loop of `undefinesAdded` over the nodes `begin`, …, `begin + count - 1`.
unfoldable pub undefines_added : List Node → Table FileAddress Bool → ℕ → ℕ → Bool
undefines_added nodes added begin zero = false
undefines_added nodes added begin (suc count) =
    let rest = undefines_added nodes added (begin + 1) count in
    elim (get_elem? nodes begin) [
      | some (file_node f) ↦ has_new_undefines f added || rest
      | _ ↦ rest
    ]

unfoldable pub get_file :
    ℕ → List Node → Table FileAddress Bool → ℕ → Outcome (Option FileAddress × ℕ)
unfolding undefines_added
get_file zero nodes added index = out_of_fuel
get_file (suc fuel) nodes added index = elim (get_elem? nodes index) [
  | none ↦ ok (none, index)
  | some (file_node f) ↦ ok (some f, index + 1)
  | some (group_end size) ↦
      let again = get_file fuel nodes added (index - size) in
      let onward = get_file fuel nodes added (index + 1) in
      if undefines_added nodes added (index - size) size then again else onward
]

module _ (ctx : LinkingContext) (files : FileAddress → File) where
  -- The callback of `handleArchiveFile`.
  unfoldable pub load_member : ℕ → FileAddress → Callback
  unfolding archive_find handle_file
  load_member fuel file name data_only s =
      let (found, taken) = archive_find (files file) name data_only (instantiated_of file s.1) in
      let r = record s.1 { members = set file taken s.1.members } in
      elim found [
        | none ↦ ok (s.0, r)
        | some member ↦ handle_file ctx fuel (files member) (set_ordinal member r) >>= λ result.
            ok (result.0 || s.0, result.1)
      ]

  unfoldable pub handle_archive_file : ℕ → FileAddress → Resolver → Outcome (Bool × Resolver)
  unfolding for_each_undefines load_member
  handle_archive_file fuel file r =
      for_each_undefines fuel file ctx.search_archives_to_override (load_member fuel file)
        (false, r)

  -- The callback of `handleSharedLibrary`.
  unfoldable pub load_export : FileAddress → Callback
  unfolding do_shared_library_atom
  load_export file name data_only s = elim ((files file).exports name data_only) [
    | none ↦ ok s
    | some a ↦ do_shared_library_atom ctx a s.1 >>= λ r. ok (s.0, r)
  ]

  unfoldable pub handle_shared_library : ℕ → FileAddress → Resolver → Outcome Resolver
  unfolding for_each_undefines load_export handle_file
  handle_shared_library fuel file r = handle_file ctx fuel (files file) r >>= λ handled.
      for_each_undefines fuel file ctx.search_shared_libraries_to_override (load_export file)
        (false, handled.1)
      >>= λ result. ok result.1

  -- The `switch` on the file's kind: `undefAdded`, the state and `seen`.
  unfoldable pub process_file :
      ℕ → FileAddress → List FileAddress → Resolver → Outcome (Bool × Resolver × List FileAddress)
  unfolding handle_file handle_archive_file handle_shared_library
  process_file fuel file seen r =
      let r1 = if has_ordinal file r then r else set_ordinal file r in
      elim (files file).kind [
        | object ↦
            if contains file seen
            then ok (false, r, seen)
            else if has_ordinal file r
            then assertion_failure
            else (handle_file ctx fuel (files file) (set_ordinal file r) >>= λ result.
                ok (result.0, result.1, file ∷ seen))
        | archive_library ↦
            handle_archive_file fuel file r1 >>= λ result. ok (result.0, result.1, seen)
        | shared_library_file ↦
            handle_shared_library fuel file r1 >>= λ result. ok (false, result, seen)
      ]

  -- The loop of `resolveUndefines`; `false` says that a file could not be parsed.
  unfoldable pub resolve_loop :
      ℕ → List Node → ℕ → List FileAddress → Resolver → Outcome (Bool × Resolver)
  unfolding get_file process_file
  resolve_loop zero nodes index seen r = out_of_fuel
  resolve_loop (suc fuel) nodes index seen r =
      get_file (suc fuel) nodes r.new_undefines_added index >>= λ next. elim next.0 [
        | none ↦ ok (true, r)
        | some file ↦
            if (files file).parses
            then (process_file fuel file seen r >>= λ done.
                resolve_loop fuel nodes next.1 done.2 (record done.1 {
                  new_undefines_added = set file done.0 done.1.new_undefines_added;
                }))
            else ok (false, r)
      ]

  -- The end of `resolve`: the check of what remains undefined, and the atoms to hand on.
  unfoldable pub conclude : Resolver → Option (List Address) × Resolver
  conclude r =
      if check_undefines ctx files r && not ctx.allow_remaining_undefines
      then (none, r)
      else (some (remove_coalesced_away_atoms r).atoms, remove_coalesced_away_atoms r)

  -- `resolve` after `resolveUndefines`.
  unfoldable pub finish : ℕ → Resolver → Outcome (Option (List Address) × Resolver)
  unfolding conclude
  finish fuel r = update_references r >>= λ updated.
      dead_strip_optimize ctx fuel updated >>= λ stripped. ok (conclude stripped)

  -- Resolver::resolve; on success the atoms of the merged file.
  unfoldable pub resolve : ℕ → List Node → Resolver → Outcome (Option (List Address) × Resolver)
  unfolding finish
  resolve fuel nodes r = resolve_loop fuel nodes 0 [] r >>= λ resolved.
      if resolved.0 then finish fuel resolved.1 else ok (none, resolved.1)
