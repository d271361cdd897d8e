-- ===== src/Core/Resolver/Finish/References.antt =====
-- `updateReferences` of lib/Core/Resolver.cpp: it ends, and leaves no reference to an atom that was
-- coalesced away, but for those of kind `kindAssociate`.
use lld_or1k.Base.{
  ◌≡◌, refl, ◌⊎◌, ⊎_elim, ◌∙◌, inl, inr, Bool, true, false, some, List, [], ◌∷◌, All, ◌==◌,
  contains, contains-cons, address_eq, Bool-cases, if◌then◌else◌,
}
use lld_or1k.Core.Atom.{
  Address, Memory, Atom, defined_atom, undefined_atom, shared_library_atom, absolute_atom,
  Reference, has_kind, kind_associate, references_of, atom_name,
}
use lld_or1k.Core.Outcome.{ok}
use lld_or1k.Core.Resolver.Finish.{store, update_targets, update_atoms, update_references}
use lld_or1k.Core.Resolver.{Resolver, insert}
use lld_or1k.Core.SymbolTable.{SymbolTable, replacement, is_coalesced_away}

-- Every chain of replacements ends, as it does in the tables of a run.
abbrev pub Ends : SymbolTable → Type 0
Ends t =
    (a : Address) → (r : Address) × (replacement a t ≡ some r) × (is_coalesced_away r t ≡ false)

-- The reference leads to an atom that is still there.
abbrev pub IsSettled : SymbolTable → Reference → Type 0
IsSettled t r = has_kind kind_associate r ≡ false → is_coalesced_away r.target t ≡ false

module _ (t : SymbolTable) (ends : Ends t) where
  update_targets_lem :
      (away : Bool) (rs : List Reference) (dead : List Address)
      → (result : List Reference × List Address) × (update_targets t away rs dead ≡ ok result)
        × All (IsSettled t) result.0
  unfolding update_targets
  update_targets_lem away [] dead = (([], dead), refl, tt)
  update_targets_lem away (r ∷ rs) dead = elim (Bool-cases (has_kind kind_associate r)) [
    | inl kept ↦
        let (rest, e, settled) =
          update_targets_lem away rs (if away then insert r.target dead else dead) in
        ((r ∷ rest.0, rest.1), rw (kept, update_targets) (rw e), (λ not_kept. cc, settled))
    | inr moved ↦
        let (target, found, here) = ends r.target in
        let (rest, e, settled) = update_targets_lem away rs dead in
        (
          ((record r { target = target }) ∷ rest.0, rest.1),
          rw (moved, update_targets) (rw (found, e)),
          (λ _. here, settled),
        )
  ]

  -- What one pass leaves of an atom: its references are settled, if they were or if it was visited.
  abbrev Updates : List Address → Memory → List Address → Type 0
  Updates l mem dead =
      (result : Memory × List Address) × (update_atoms t l mem dead ≡ ok result)
      × ((a : Address)
          → (contains a l ≡ true) ⊎ All (IsSettled t) (references_of (mem a))
          → All (IsSettled t) (references_of (result.0 a)))
      × ((a : Address) → atom_name (result.0 a) ≡ atom_name (mem a))

  skips :
      (x : Address) (rest : List Address) (mem : Memory) (dead : List Address)
      → update_atoms t (x ∷ rest) mem dead ≡ update_atoms t rest mem dead
      → All (IsSettled t) (references_of (mem x))
      → Updates rest mem dead
      → Updates (x ∷ rest) mem dead
  skips x rest mem dead same empty (result, e, settled, names) = (
    result,
    same ∙ e,
    λ a h.
        settled a
          (⊎_elim (λ m. ⊎_elim (λ here. inr (rw here empty)) inl (contains-cons a x rest m)) inr h),
    names,
  )

  update_step :
      (x : Address) (rest : List Address) (mem : Memory) (dead : List Address) (atom : Atom)
      → mem x ≡ atom
      → ((m : Memory) (d : List Address) → Updates rest m d)
      → Updates (x ∷ rest) mem dead
  unfolding update_atoms
  update_step x rest mem dead (defined_atom d) e ih =
      let (targets, found, fixed) = update_targets_lem (is_coalesced_away x t) d.references dead in
      let mem' = store mem x (defined_atom (record d { references = targets.0 })) in
      let (result, run, settled, names) = ih mem' targets.1 in
      (
        result,
        rw (e, update_atoms) (rw found run),
        λ a h. elim (Bool-cases (a == x)) [
          | inl same ↦ settled a (inr (rw same fixed))
          | inr other ↦ settled a (⊎_elim (λ m. inl (rw other at m)) (λ old. inr (rw other old)) h)
        ],
        λ a. elim (Bool-cases (a == x)) [
          | inl same ↦ names a ∙ rw same (rw ((address_eq.same_iff a x).0 same) (rw e))
          | inr other ↦ names a ∙ rw other
        ],
      )
  update_step x rest mem dead (undefined_atom u) e ih =
      skips x rest mem dead (rw (e, update_atoms)) (rw e tt) (ih mem dead)
  update_step x rest mem dead (shared_library_atom s) e ih =
      skips x rest mem dead (rw (e, update_atoms)) (rw e tt) (ih mem dead)
  update_step x rest mem dead (absolute_atom s) e ih =
      skips x rest mem dead (rw (e, update_atoms)) (rw e tt) (ih mem dead)

  update_atoms_lem : (l : List Address) (mem : Memory) (dead : List Address) → Updates l mem dead
  unfolding update_atoms
  update_atoms_lem [] mem dead = ((mem, dead), refl, λ a. ⊎_elim (λ m. cc) (λ old. old), λ a. refl)
  update_atoms_lem (x ∷ rest) mem dead =
      update_step x rest mem dead (mem x) refl (update_atoms_lem rest)

-- If every chain of replacements ends, `updateReferences` ends without a failure; afterwards each
-- reference of each atom of `_atoms`, but for those of kind `kindAssociate`, leads to an atom that
-- is not coalesced away; the atoms keep their names, and the table and `_atoms` stay.
pub update_references-IsSettled :
    (r : Resolver)
    → Ends r.symbol_table
    → (after : Resolver) × (update_references r ≡ ok after)
      × ((a : Address)
          → contains a r.atoms ≡ true
          → All (IsSettled r.symbol_table) (references_of (after.memory a)))
      × ((a : Address) → atom_name (after.memory a) ≡ atom_name (r.memory a))
      × (after.symbol_table ≡ r.symbol_table)
      × (after.atoms ≡ r.atoms)
unfolding update_references
update_references-IsSettled r ends =
    let (result, e, settled, names) =
      update_atoms_lem r.symbol_table ends r.atoms r.memory r.dead_atoms in
    (
      record r { memory = result.0; dead_atoms = result.1 },
      simp e,
      λ a m. settled a (inl m),
      names,
      refl,
      refl,
    )
