-- ===== src/Core/Resolver/Finish/Associates.antt =====
-- `_deadAtoms` of `updateReferences` in lib/Core/Resolver.cpp: the atoms that go away with an atom.
use lld_or1k.Base.{
  ◌≡◌, refl, sym, ap, subst, inl, inr, Bool, true, false, List, [], ◌∷◌, All, ◌==◌, contains,
  contains-cons, contains-head, contains-tail, address_eq, Bool-cases, if◌then◌else◌, ⊎_elim,
}
use lld_or1k.Core.Atom.{
  Address, Memory, Atom, defined_atom, undefined_atom, shared_library_atom, absolute_atom,
  Reference, has_kind, kind_associate, references_of,
}
use lld_or1k.Core.Outcome.{ok, or_fuel, ◌>>=◌, >>=-eq-ok}
use lld_or1k.Core.Resolver.Finish.{store, update_targets, update_atoms, update_references}
use lld_or1k.Core.Resolver.{Resolver, insert}
use lld_or1k.Core.SymbolTable.{SymbolTable, replacement, is_coalesced_away}

-- The targets of the references of kind `kindAssociate` are dead.
abbrev AreDead : List Address → List Reference → Type 0
AreDead dead = All (λ ref. has_kind kind_associate ref ≡ true → contains ref.target dead ≡ true)

Grows : List Address → List Address → Type 0
Grows dead dead' = (x : Address) → contains x dead ≡ true → contains x dead' ≡ true

insert-Grows : (a : Address) (dead : List Address) → Grows dead (insert a dead)
unfolding Grows
insert-Grows a dead x h = elim (Bool-cases (contains a dead)) [
  | inl here ↦ rw here h
  | inr new ↦ rw new (contains-tail x a dead h)
]

contains-insert : (a : Address) (dead : List Address) → contains a (insert a dead) ≡ true
contains-insert a dead = elim (Bool-cases (contains a dead)) [
  | inl here ↦ rw here here
  | inr new ↦ rw new (contains-head a dead)
]

Grows-AreDead :
    (dead dead' : List Address) (refs : List Reference)
    → Grows dead dead'
    → AreDead dead refs
    → AreDead dead' refs
unfolding Grows
Grows-AreDead dead dead' [] grows h = tt
Grows-AreDead dead dead' (ref ∷ refs) grows (h, hs) =
    (λ kind. grows ref.target (h kind), Grows-AreDead dead dead' refs grows hs)

next-Grows :
    (away : Bool) (a : Address) (dead : List Address)
    → Grows dead (if away then insert a dead else dead)
unfolding Grows
next-Grows true a dead x h = insert-Grows a dead x h
next-Grows false a dead x h = h

-- What a pass over the references of one atom tells of the dead atoms.
abbrev Tells : Bool → List Address → List Reference → List Address → Type 0
Tells away dead refs dead' = Grows dead dead' × (away ≡ true → AreDead dead' refs)

Tells-same :
    (away : Bool) (dead : List Address) (refs : List Reference) {d d' : List Address}
    → d ≡ d'
    → Tells away dead refs d
    → Tells away dead refs d'
Tells-same away dead refs same h = subst (λ l. Tells away dead refs l) same h

module _ (t : SymbolTable) where
  update_targets-AreDead :
      (away : Bool) (refs : List Reference) (dead : List Address)
      (result : List Reference × List Address)
      → update_targets t away refs dead ≡ ok result
      → Tells away dead refs result.1
  unfolding update_targets Grows
  update_targets-AreDead away [] dead result run =
      let none_left : List Reference × List Address = ([], dead) in
      let whole : none_left ≡ result = cc run in
      let same : dead ≡ result.1 = ap (λ (p : List Reference × List Address). p.1) whole in
      (λ x h. subst (λ d. contains x d ≡ true) same h, λ _. tt)
  update_targets-AreDead away (ref ∷ refs) dead result run =
      elim (Bool-cases (has_kind kind_associate ref)) [
        | inl kind ↦
            let next = if away then insert ref.target dead else dead in
            let (rest, called, last) =
              >>=-eq-ok (update_targets t away refs next) (λ rest. ok (ref ∷ rest.0, rest.1))
                (rw (kind, update_targets) at run) in
            let kept : List Reference × List Address = (ref ∷ rest.0, rest.1) in
            let whole : kept ≡ result = cc last in
            let same : rest.1 ≡ result.1 = ap (λ (p : List Reference × List Address). p.1) whole in
            let (grows, are_dead) = update_targets-AreDead away refs next rest called in
            Tells-same away dead (ref ∷ refs) same (
              λ x h. grows x (next-Grows away ref.target dead x h),
              λ gone. (
                λ _. grows ref.target (rw gone (contains-insert ref.target dead)),
                are_dead gone,
              ),
            )
        | inr other ↦
            let (target, _, onward) =
              >>=-eq-ok (or_fuel (replacement ref.target t))
                (λ target. update_targets t away refs dead >>= λ rest.
                  ok ((record ref { target = target }) ∷ rest.0, rest.1))
                (rw (other, update_targets) at run) in
            let (rest, called, last) =
              >>=-eq-ok (update_targets t away refs dead)
                (λ rest. ok ((record ref { target = target }) ∷ rest.0, rest.1)) onward in
            let moved : List Reference × List Address =
              ((record ref { target = target }) ∷ rest.0, rest.1) in
            let whole : moved ≡ result = cc last in
            let same : rest.1 ≡ result.1 = ap (λ (p : List Reference × List Address). p.1) whole in
            let (grows, are_dead) = update_targets-AreDead away refs dead rest called in
            Tells-same away dead (ref ∷ refs) same
              (grows, λ gone. (λ kind. cc (kind, other), are_dead gone))
      ]

  -- One pass: the set of dead atoms grows, and it gets the associates of each coalesced-away atom.
  abbrev Buries : List Address → Memory → List Address → List Address → Type 0
  Buries l mem dead dead' =
      Grows dead dead'
      × ((a : Address)
          → contains a l ≡ true
          → is_coalesced_away a t ≡ true
          → AreDead dead' (references_of (mem a)))

  Buries-skip :
      (x : Address) (rest : List Address) (mem : Memory) (dead dead' : List Address)
      → references_of (mem x) ≡ []
      → Buries rest mem dead dead'
      → Buries (x ∷ rest) mem dead dead'
  Buries-skip x rest mem dead dead' empty (grows, buried) = (
    grows,
    λ a m gone.
        ⊎_elim (λ here. rw here (rw empty tt)) (λ later. buried a later gone)
          (contains-cons a x rest m),
  )

  visit-Buries :
      (x : Address) (rest : List Address) (mem : Memory) (dead : List Address)
      (result : Memory × List Address) (atom : Atom)
      → mem x ≡ atom
      → update_atoms t (x ∷ rest) mem dead ≡ ok result
      → ((m : Memory) (d : List Address)
          → update_atoms t rest m d ≡ ok result
          → Buries rest m d result.1)
      → Buries (x ∷ rest) mem dead result.1
  unfolding update_atoms Grows
  visit-Buries x rest mem dead result (defined_atom d) e run ih =
      let away = is_coalesced_away x t in
      let (targets, called, onward) =
        >>=-eq-ok (update_targets t away d.references dead)
          (λ targets.
            update_atoms t rest (store mem x (defined_atom (record d { references = targets.0 })))
              targets.1)
          (rw (e, update_atoms) at run) in
      let (grown, are_dead) = update_targets-AreDead away d.references dead targets called in
      let mem' = store mem x (defined_atom (record d { references = targets.0 })) in
      let (grows, buried) = ih mem' targets.1 onward in
      (
        λ y h. grows y (grown y h),
        λ a m gone. elim (Bool-cases (a == x)) [
          | inl same ↦
              let here = (address_eq.same_iff a x).0 same in
              rw here (
                rw e (
                  Grows-AreDead targets.1 result.1 d.references grows (are_dead (rw here at gone))))
          | inr other ↦ rw other at (buried a (rw other at m) gone)
        ],
      )
  visit-Buries x rest mem dead result (undefined_atom u) e run ih =
      Buries-skip x rest mem dead result.1 (rw e) (ih mem dead (rw (e, update_atoms) at run))
  visit-Buries x rest mem dead result (shared_library_atom u) e run ih =
      Buries-skip x rest mem dead result.1 (rw e) (ih mem dead (rw (e, update_atoms) at run))
  visit-Buries x rest mem dead result (absolute_atom u) e run ih =
      Buries-skip x rest mem dead result.1 (rw e) (ih mem dead (rw (e, update_atoms) at run))

  update_atoms-Buries :
      (l : List Address) (mem : Memory) (dead : List Address) (result : Memory × List Address)
      → update_atoms t l mem dead ≡ ok result
      → Buries l mem dead result.1
  unfolding update_atoms Grows
  update_atoms-Buries [] mem dead result run =
      let as_it_was : Memory × List Address = (mem, dead) in
      let whole : as_it_was ≡ result = cc run in
      let same : dead ≡ result.1 = ap (λ (p : Memory × List Address). p.1) whole in
      (λ x h. subst (λ l. contains x l ≡ true) same h, λ a m gone. cc m)
  update_atoms-Buries (x ∷ rest) mem dead result run =
      visit-Buries x rest mem dead result (mem x) refl run
        (λ m d run'. update_atoms-Buries rest m d result run')

-- `updateReferences` leaves the table as it was, and afterwards the associates of each atom of
-- `_atoms` that is coalesced away are dead.
pub update_references-Buries :
    (r after : Resolver)
    → update_references r ≡ ok after
    → (after.symbol_table ≡ r.symbol_table)
      × ((a : Address)
          → contains a r.atoms ≡ true
          → is_coalesced_away a r.symbol_table ≡ true
          → AreDead after.dead_atoms (references_of (r.memory a)))
unfolding update_references
update_references-Buries r after run =
    let (result, called, last) =
      >>=-eq-ok (update_atoms r.symbol_table r.atoms r.memory r.dead_atoms)
        (λ result. ok (record r { memory = result.0; dead_atoms = result.1 })) run in
    let same : record r { memory = result.0; dead_atoms = result.1 } ≡ after = cc last in
    let (_, buried) =
      update_atoms-Buries r.symbol_table r.atoms r.memory r.dead_atoms result called in
    (
      ap (λ (s : Resolver). s.symbol_table) (sym same),
      λ a m gone.
          subst (λ (s : Resolver). AreDead s.dead_atoms (references_of (r.memory a))) same
            (buried a m gone),
    )
