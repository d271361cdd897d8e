-- ===== src/Core/Tests/Links.antt =====
-- The resolver at work: dead stripping, references, the walk over groups, and members of archives.
use lld_or1k.Base.{
  ℕ, zero, suc, ◌≡◌, ◌⊎◌, ◌↔◌, refl, true, Option, some, List, [], ◌∷◌, arith, All, contains,
  contains-cons, contains-tail, address_eq, if◌then◌else◌, nat_eq, inl, inr,
}
use lld_or1k.Base.Table.{find}
use lld_or1k.Core.Atom.{Address, references_of, atom_name}
use lld_or1k.Core.File.{file_node, group_end, Node, FileAddress}
use lld_or1k.Core.Outcome.{ok}
use lld_or1k.Core.Resolver.Finish.References.{update_references-IsSettled, IsSettled}
use lld_or1k.Core.Resolver.Finish.{update_references}
use lld_or1k.Core.Resolver.Inputs.Groups.{get_file-IsNext, IsNext, AreGroups}
use lld_or1k.Core.Resolver.Inputs.{get_file}
use lld_or1k.Core.Resolver.Live.{mark_live, mark_each, Reach, successors}
use lld_or1k.Core.Resolver.Live.Marking.{mark_each-Reach}
use lld_or1k.Core.Resolver.Strip.Laws.{dead_strip_optimize-IsKept, IsKept, all_backrefs}
use lld_or1k.Core.Resolver.Strip.{dead_strip_optimize, add_named_roots, backrefs}
use lld_or1k.Core.Resolver.{Resolver, new_resolver}
use lld_or1k.Core.SymbolTable.History.Keeps.{replacement-ends}
use lld_or1k.Core.Tests.Coalescing.{built, after_three}
use lld_or1k.Core.Tests.Samples.{context, memory}

-- 1 leads to 2 and 3, and 3 back to 1.
abbrev edges : Address → List Address
edges a = if nat_eq a 1 then 2 ∷ 3 ∷ [] else if nat_eq a 3 then 1 ∷ [] else []

mark_each-Reach_example :
    (after : List Address) × (mark_each (mark_live edges 5) (1 ∷ []) [] ≡ some after)
    × ((x : Address)
        → (contains x after ≡ true) ↔ (
            (contains x [] ≡ true)
            ⊎ ((s : Address) × (contains s (1 ∷ []) ≡ true) × Reach edges s x)))
mark_each-Reach_example =
    mark_each-Reach edges (1 ∷ 2 ∷ 3 ∷ []) 5 (1 ∷ []) [] (λ x y h k. ground arith) (omega arith)
      (λ x h. ground arith) (λ x y h. cc)

-- After the run of `after_three`, with `main`, `f` and `unused` among the atoms.
abbrev linked : Resolver
linked = record (new_resolver memory) {
  symbol_table = record after_three { name_table = ("f", 12) ∷ ("main", 10) ∷ [] };
  atoms = 10 ∷ 11 ∷ 12 ∷ 14 ∷ [];
}

dead_strip_example :
    (after : Resolver) × (dead_strip_optimize context 4 linked ≡ ok after)
    × ((x : Address)
        → (contains x after.atoms ≡ true)
          ↔ ((contains x linked.atoms ≡ true) × IsKept linked (10 ∷ []) x))
unfolding add_named_roots find successors all_backrefs backrefs
dead_strip_example =
    dead_strip_optimize-IsKept context linked (10 ∷ 11 ∷ []) 4 (10 ∷ []) refl refl refl refl
      (λ x y h k. elim (contains-cons x 10 (11 ∷ []) h) [
        | inl main ↦ contains-tail y 10 (11 ∷ []) (rw main at k)
        | inr later ↦ elim (contains-cons x 11 [] later) [
          | inl f ↦ cc (rw f at k)
          | inr none_left ↦ cc
        ]
      ])
      (omega arith) (λ x h. ground arith)

abbrev resolved : Resolver
resolved = record linked { symbol_table = after_three }

update_references_example :
    (after : Resolver) × (update_references resolved ≡ ok after)
    × ((a : Address)
        → contains a resolved.atoms ≡ true
        → All (IsSettled resolved.symbol_table) (references_of (after.memory a)))
    × ((a : Address) → atom_name (after.memory a) ≡ atom_name (resolved.memory a))
    × (after.symbol_table ≡ resolved.symbol_table)
    × (after.atoms ≡ resolved.atoms)
update_references_example =
    update_references-IsSettled resolved (λ a. replacement-ends memory context after_three a built)

-- A group of one file, behind another file.
abbrev group : List Node
group = file_node 1 ∷ file_node 2 ∷ group_end 1 ∷ []

groups : AreGroups group
groups zero size e = cc
groups (suc zero) size e = cc
groups (suc (suc zero)) zero e = (2, refl)
groups (suc (suc zero)) (suc size) e = cc
groups (suc (suc (suc i))) size e = cc

get_file_example :
    (answer : Option FileAddress × ℕ) × (get_file 4 group ((2, true) ∷ []) 2 ≡ ok answer)
    × IsNext group ((2, true) ∷ []) 2 answer
get_file_example = get_file-IsNext group ((2, true) ∷ []) 4 2 groups (omega arith) (omega arith)
