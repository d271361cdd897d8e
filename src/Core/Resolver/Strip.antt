-- ===== src/Core/Resolver/Strip.antt =====
-- Dead code stripping: `isBackref` and `deadStripOptimize` of lib/Core/Resolver.cpp.
-- Sets of atoms are lists; `fuel` bounds the depth of `markLive`.
pub mod Laws
use lld_or1k.Base.{
  ℕ, Bool, true, false, ◌&&◌, ◌||◌, Option, none, some, List, [], ◌∷◌, ◌++◌, String, if◌then◌else◌,
  contains, address_eq,
}
use lld_or1k.Core.Atom.{
  Address, Memory, Atom, defined_atom, absolute_atom, Reference, has_kind, kind_layout_after,
  kind_group_child, Scope, global,
}
use lld_or1k.Core.Context.{LinkingContext}
use lld_or1k.Core.Outcome.{Outcome, ok, assertion_failure, ◌>>=◌, or_fuel}
use lld_or1k.Core.Resolver.Live.{mark_live, mark_each, successors}
use lld_or1k.Core.Resolver.{Resolver, insert}
use lld_or1k.Core.SymbolTable.{SymbolTable, find_by_name}

abbrev pub is_backref : Reference → Bool
is_backref r = has_kind kind_layout_after r || has_kind kind_group_child r

-- The pairs that the inner loop inserts into `_reverseRef` for the atom `a`.
unfoldable pub backrefs : Address → List Reference → List (Address × Address)
backrefs a [] = []
backrefs a (r ∷ rs) = if is_backref r then (r.target, a) ∷ backrefs a rs else backrefs a rs

abbrev pub backrefs_of : Memory → Address → List (Address × Address)
unfolding backrefs
backrefs_of mem a = elim (mem a) [ defined_atom d ↦ backrefs a d.references | _ ↦ [] ]

abbrev pub is_absolute : Atom → Bool
is_absolute (absolute_atom a) = true
is_absolute _ = false

-- The first loop: `_reverseRef` and `_liveAtoms` grow together.
unfoldable pub index_atoms :
    Memory
    → ℕ
    → List Address
    → List (Address × Address)
    → List Address
    → Option (List (Address × Address) × List Address)
unfolding backrefs_of
index_atoms mem fuel [] reverse live = some (reverse, live)
index_atoms mem fuel (a ∷ rest) reverse live =
    let reverse' = backrefs_of mem a ++ reverse in
    elim (is_absolute (mem a)) [
      | false ↦ index_atoms mem fuel rest reverse' live
      | true ↦ elim (mark_live (successors mem reverse') fuel a live) [
        | none ↦ none
        | some live' ↦ index_atoms mem fuel rest reverse' live'
      ]
    ]

abbrev pub is_global_definition : Atom → Bool
is_global_definition (defined_atom d) = elim d.scope [ global ↦ true | _ ↦ false ]
is_global_definition _ = false

-- `if (_ctx.globalsAreDeadStripRoots())`
unfoldable pub add_global_roots : Memory → List Address → List Address → List Address
add_global_roots mem [] roots = roots
add_global_roots mem (a ∷ rest) roots =
    add_global_roots mem rest (if is_global_definition (mem a) then insert a roots else roots)

-- The loop over `_ctx.deadStripRoots()`.
unfoldable pub add_named_roots : SymbolTable → List String → List Address → Outcome (List Address)
add_named_roots t [] roots = ok roots
add_named_roots t (n ∷ names) roots = elim (find_by_name n t) [
  | none ↦ assertion_failure
  | some a ↦ add_named_roots t names (insert a roots)
]

-- `std::remove_if` and `erase`: what is kept.
unfoldable pub keep_if : (Address → Bool) → List Address → List Address
keep_if p [] = []
keep_if p (a ∷ rest) = let others = keep_if p rest in if p a then a ∷ others else others

unfoldable pub dead_strip_optimize : LinkingContext → ℕ → Resolver → Outcome Resolver
unfolding index_atoms add_global_roots add_named_roots keep_if mark_each mark_live successors
dead_strip_optimize ctx fuel r =
    if ctx.dead_strip
    then (or_fuel (index_atoms r.memory fuel r.atoms r.reverse_ref r.live_atoms) >>= λ indexed.
        let globals =
          if ctx.globals_are_dead_strip_roots
          then add_global_roots r.memory r.atoms r.dead_strip_roots
          else r.dead_strip_roots in
        add_named_roots r.symbol_table ctx.dead_strip_roots globals >>= λ roots.
        or_fuel (mark_each (mark_live (successors r.memory indexed.0) fuel) roots indexed.1)
        >>= λ live. ok (record r {
          reverse_ref = indexed.0;
          live_atoms = live;
          dead_strip_roots = roots;
          atoms = keep_if (λ a. contains a live) r.atoms;
        }))
    else ok r
