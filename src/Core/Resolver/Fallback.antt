-- ===== src/Core/Resolver/Fallback.antt =====
-- An undefined atom whose fallback has its own name: `doUndefinedAtom` of lib/Core/Resolver.cpp and
-- the loop of `SymbolTable::replacement`.
use lld_or1k.Base.{
  ℕ, zero, suc, ◌≡◌, refl, ap, ◌∙◌, true, false, ◌++◌, [], ◌∷◌, none, some, arith, ◌==◌, address_eq,
  name_eq,
}
use lld_or1k.Base.Table.{Table, find, set, find-set}
use lld_or1k.Core.Atom.{null_rank, Address, Memory, undefined_atom, UndefinedAtom}
use lld_or1k.Core.Context.{LinkingContext, NotifyKeeps}
use lld_or1k.Core.Outcome.{ok}
use lld_or1k.Core.Resolver.{Resolver, do_undefined_atom, after_undefined}
use lld_or1k.Core.SymbolTable.{
  SymbolTable, chase, add, add_by_name, add_replacement, coalesce, find_by_name, is_defined,
  is_empty,
}
use lld_or1k.Core.SymbolTable.Collide.{use_new, collide, dup_undef, undef_decides}

-- Two entries that name each other: the loop does not end, whatever the fuel.
chase_cycle :
    (m : Table Address Address) (a f : Address)
    → find a m ≡ some f
    → find f m ≡ some a
    → (fuel : ℕ) → (chase fuel m a ≡ none) × (chase fuel m f ≡ none)
unfolding chase
chase_cycle m a f to_f to_a zero = (refl, refl)
chase_cycle m a f to_f to_a (suc fuel) =
    let (at_a, at_f) = chase_cycle m a f to_f to_a fuel in
    (rw (to_f, chase) at_f, rw (to_a, chase) at_a)

module _ (mem : Memory) (ctx : LinkingContext) (a f : Address) (u v : UndefinedAtom) where
  add_first :
      (t : SymbolTable)
      → mem a ≡ undefined_atom u
      → is_empty u.name ≡ false
      → find_by_name u.name t ≡ none
      → add mem ctx a t ≡ ok (true, record t { name_table = set u.name a t.name_table })
  unfolding add add_by_name
  add_first t at_a named fresh = simp (add, add_by_name, at_a, named, fresh)

  add_fallback :
      (t : SymbolTable)
      → NotifyKeeps ctx
      → mem a ≡ undefined_atom u
      → mem f ≡ undefined_atom v
      → ¬ (a ≡ f)
      → v.fallback ≡ none
      → v.can_be_null ≡ u.can_be_null
      → is_empty v.name ≡ false
      → find_by_name v.name t ≡ some a
      → add mem ctx f t ≡ ok (false, add_replacement f a t)
  unfolding add add_by_name coalesce use_new collide dup_undef undef_decides
  add_fallback t keeps at_a at_f apart last same named found =
      let test : a == f ≡ false = ground arith in
      let decides : undef_decides u v ≡ false = ground (arith, ap null_rank same) in
      simp (
        add, add_by_name, coalesce, use_new, dup_undef, decides, at_f, at_a, named, found, test,
        keeps,
      )

module _ (ctx : LinkingContext) (r : Resolver) (a f : Address) (u v : UndefinedAtom) where
  -- An undefined atom of a new name, whose fallback is another undefined atom with the same name
  -- and nullness and no fallback of its own, under a context whose hook keeps the choice: the
  -- atom is added, each of the two is then entered as the replacement of the other, and
  -- `replacement` of either does not end, whatever the number of rounds.
  pub do_undefined_atom-cycle :
      (fuel : ℕ)
      → NotifyKeeps ctx
      → r.memory a ≡ undefined_atom u
      → r.memory f ≡ undefined_atom v
      → ¬ (a ≡ f)
      → u.fallback ≡ some f
      → v.fallback ≡ none
      → v.can_be_null ≡ u.can_be_null
      → v.name ≡ u.name
      → is_empty u.name ≡ false
      → find_by_name u.name r.symbol_table ≡ none
      → (after : Resolver) × (do_undefined_atom ctx (suc (suc fuel)) a r ≡ ok (true, after))
        × ((rounds : ℕ)
            → (chase rounds after.symbol_table.replaced_atoms a ≡ none)
              × (chase rounds after.symbol_table.replaced_atoms f ≡ none))
  unfolding do_undefined_atom after_undefined add_replacement is_defined set
  do_undefined_atom-cycle fuel keeps at_a at_f apart back last same names named fresh =
      let t1 = record r.symbol_table { name_table = set u.name a r.symbol_table.name_table } in
      let first = add_first r.memory ctx a f u v r.symbol_table at_a named fresh in
      let found : find_by_name v.name t1 ≡ some a = ground (
        arith,
        find-set v.name u.name a r.symbol_table.name_table,
        name_eq.same_iff v.name u.name,
        names,
      ) in
      let second =
        add_fallback r.memory ctx a f u v t1 keeps at_a at_f apart last same
          (ap is_empty names ∙ named) found in
      let entries = add_replacement a f (add_replacement f a t1) in
      let pairs = r.symbol_table.replaced_atoms in
      let forth : find a entries.replaced_atoms ≡ some f =
        ground (arith, find-set a a f (set f a pairs)) in
      let back_again : find f entries.replaced_atoms ≡ some a =
        ground (arith, find-set f a f (set f a pairs), find-set f f a pairs) in
      let cycle = chase_cycle entries.replaced_atoms a f forth back_again in
      (
        record r {
          atoms = (r.atoms ++ a ∷ []) ++ f ∷ [];
          undefines = r.undefines ++ u.name ∷ [];
          symbol_table = entries;
        },
        simp (
          do_undefined_atom, after_undefined, is_defined, at_a, at_f, first, second, back, last,
          found,
        ),
        cycle,
      )
