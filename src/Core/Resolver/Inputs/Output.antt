-- ===== src/Core/Resolver/Inputs/Output.antt =====
-- What a successful `Resolver::resolve` of lib/Core/Resolver.cpp hands on.
use lld_or1k.Base.{
  ℕ, ◌≡◌, ◌⊎◌, ◌≢◌, All, refl, subst, sym, ap, ◌∙◌, Bool, true, false, not, ◌&&◌, ◌||◌, none, some,
  List, [], ◌∷◌, String, arith, ◌==◌, contains, address_eq, name_eq, if◌then◌else◌, Bool-cases, inl,
  inr,
}
use lld_or1k.Base.Table.{Table, find}
use lld_or1k.Core.Atom.{
  Address, Memory, undefined_atom, UndefinedAtom, never, is_undefined, Reference, has_kind,
  kind_associate, references_of,
}
use lld_or1k.Core.Context.{LinkingContext}
use lld_or1k.Core.File.{File, FileAddress, Node, shared_library_file}
use lld_or1k.Core.Outcome.{ok, or_fuel, ◌>>=◌, >>=-eq-ok}
use lld_or1k.Core.Resolver.Finish.Associates.{update_references-Buries}
use lld_or1k.Core.Resolver.Finish.{
  update_references, check_undefines, remove_coalesced_away_atoms, is_reported, reported_at,
  any_reported,
}
use lld_or1k.Core.Resolver.Inputs.{conclude, finish, resolve, resolve_loop}
use lld_or1k.Core.Resolver.Strip.{
  dead_strip_optimize, keep_if, index_atoms, add_named_roots, add_global_roots,
}
use lld_or1k.Core.Resolver.Live.{mark_live, mark_each, successors}
use lld_or1k.Core.Resolver.Strip.Laws.{contains-keep_if}
use lld_or1k.Core.Resolver.{Resolver}
use lld_or1k.Core.SymbolTable.{SymbolTable, find_by_name, is_coalesced_away, undefines_in}

-- An undefined atom that a name leads to is among `undefines`, unless it is coalesced away.
contains-undefines_in :
    (mem : Memory) (t : SymbolTable) (names : Table String Address) (name : String) (a : Address)
    → find name names ≡ some a
    → is_undefined (mem a) ≡ true
    → is_coalesced_away a t ≡ false
    → contains a (undefines_in mem t names) ≡ true
unfolding find undefines_in
contains-undefines_in mem t [] name a found undef here = cc
contains-undefines_in mem t ((n, b) ∷ names) name a found undef here =
    ground (arith, contains-undefines_in mem t names name a, address_eq.same_iff a b)

any_reported-false :
    (p : Address → Bool) (l : List Address) (a : Address)
    → any_reported p l ≡ false
    → contains a l ≡ true
    → p a ≡ false
unfolding any_reported
any_reported-false p [] a quiet m = cc
any_reported-false p (b ∷ l) a quiet m = elim (Bool-cases (a == b)) [
  | inl same ↦
      let e = (address_eq.same_iff a b).0 same in rw e (ground (arith, any_reported-false p l a))
  | inr other ↦ ground (arith, any_reported-false p l a)
]

module _ (ctx : LinkingContext) (files : FileAddress → File) where
  -- The state before the last step of a link that hands on atoms.
  abbrev pub Concluded : Resolver → List Address → Resolver → Type 0
  Concluded before atoms after =
      (check_undefines ctx files before && not ctx.allow_remaining_undefines ≡ false)
      × (remove_coalesced_away_atoms before ≡ after)
      × ((remove_coalesced_away_atoms before).atoms ≡ atoms)

  conclude-inversion :
      (before after : Resolver) (atoms : List Address)
      → conclude ctx files before ≡ (some atoms, after)
      → Concluded before atoms after
  unfolding conclude
  conclude-inversion before after atoms h =
      elim (Bool-cases (check_undefines ctx files before && not ctx.allow_remaining_undefines)) [
        | inl bad ↦ ground (arith, h, bad)
        | inr good ↦ ground (arith, h, good)
      ]

  dead_strip_optimize-keeps :
      (fuel : ℕ) (r after : Resolver)
      → dead_strip_optimize ctx fuel r ≡ ok after
      → (after.symbol_table ≡ r.symbol_table) × (after.dead_atoms ≡ r.dead_atoms)
  unfolding dead_strip_optimize
  dead_strip_optimize-keeps fuel r after run =
      let stripped = λ (reverse : List (Address × Address)) (roots live : List Address). record r {
        reverse_ref = reverse;
        live_atoms = live;
        dead_strip_roots = roots;
        atoms = keep_if (λ a. contains a live) r.atoms;
      } in
      let globals =
        if ctx.globals_are_dead_strip_roots
        then add_global_roots r.memory r.atoms r.dead_strip_roots
        else r.dead_strip_roots in
      elim (Bool-cases ctx.dead_strip) [
        | inl on ↦
            let (indexed, _, rest) =
              >>=-eq-ok (or_fuel (index_atoms r.memory fuel r.atoms r.reverse_ref r.live_atoms))
                (λ indexed. add_named_roots r.symbol_table ctx.dead_strip_roots globals >>= λ roots.
                  or_fuel
                    (mark_each (mark_live (successors r.memory indexed.0) fuel) roots indexed.1)
                  >>= λ live. ok (stripped indexed.0 roots live))
                (rw on at run) in
            let (roots, _, marks) =
              >>=-eq-ok (add_named_roots r.symbol_table ctx.dead_strip_roots globals)
                (λ roots.
                  or_fuel
                    (mark_each (mark_live (successors r.memory indexed.0) fuel) roots indexed.1)
                  >>= λ live. ok (stripped indexed.0 roots live))
                rest in
            let (live, _, last) =
              >>=-eq-ok
                (or_fuel
                  (mark_each (mark_live (successors r.memory indexed.0) fuel) roots indexed.1))
                (λ live. ok (stripped indexed.0 roots live)) marks in
            let same : after ≡ stripped indexed.0 roots live = cc last in
            (ap (λ (s : Resolver). s.symbol_table) same, ap (λ (s : Resolver). s.dead_atoms) same)
        | inr off ↦
            let same : after ≡ r = cc (rw off at run) in
            (ap (λ (s : Resolver). s.symbol_table) same, ap (λ (s : Resolver). s.dead_atoms) same)
      ]

  -- The states of a link that hands on atoms: behind the walk over the inputs, behind
  -- `updateReferences`, and before the last step.
  abbrev Steps : ℕ → Resolver → Resolver → Resolver → Type 0
  Steps fuel resolved updated before =
      (update_references resolved ≡ ok updated) × (dead_strip_optimize ctx fuel updated ≡ ok before)

  finish-inversion :
      (fuel : ℕ) (r after : Resolver) (atoms : List Address)
      → finish ctx files fuel r ≡ ok (some atoms, after)
      → (updated : Resolver) × (before : Resolver) × Steps fuel r updated before
        × Concluded before atoms after
  unfolding finish
  finish-inversion fuel r after atoms h =
      let (updated, settles, rest) =
        >>=-eq-ok (update_references r)
          (λ u. dead_strip_optimize ctx fuel u >>= λ s. ok (conclude ctx files s)) h in
      let (stripped, strips, last) =
        >>=-eq-ok (dead_strip_optimize ctx fuel updated) (λ s. ok (conclude ctx files s)) rest in
      (updated, stripped, (settles, strips), conclude-inversion stripped after atoms (cc last))

  resolve-inversion :
      (fuel : ℕ) (nodes : List Node) (r after : Resolver) (atoms : List Address)
      → resolve ctx files fuel nodes r ≡ ok (some atoms, after)
      → (resolved : Resolver) × (resolve_loop ctx files fuel nodes 0 [] r ≡ ok (true, resolved))
        × (updated : Resolver) × (before : Resolver) × Steps fuel resolved updated before
        × Concluded before atoms after
  unfolding resolve
  resolve-inversion fuel nodes r after atoms h =
      let (resolved, walks, rest) =
        >>=-eq-ok (resolve_loop ctx files fuel nodes 0 [] r)
          (λ s. if s.0 then finish ctx files fuel s.1 else ok (none, s.1)) h in
      elim (Bool-cases resolved.0) [
        | inl all_parsed ↦
            let (updated, before, steps, concluded) =
              finish-inversion fuel resolved.1 after atoms (ground (arith, rest, all_parsed)) in
            (
              resolved.1,
              subst (λ b. resolve_loop ctx files fuel nodes 0 [] r ≡ ok (b, resolved.1)) all_parsed
                  walks,
              updated,
              before,
              steps,
              concluded,
            )
        | inr unparsed ↦ absurd (ground (arith, rest, unparsed))
      ]

  -- No atom of `resolved` that is coalesced away has the atom as an associate.
  abbrev pub HasNoOwner : Resolver → Address → Type 0
  HasNoOwner resolved x =
      (a : Address)
      → contains a resolved.atoms ≡ true
      → is_coalesced_away a resolved.symbol_table ≡ true
      → All (λ ref. has_kind kind_associate ref ≡ true → ref.target ≢ x)
          (references_of (resolved.memory a))

  not_target :
      (x : Address) (dead : List Address) (refs : List Reference)
      → contains x dead ≡ false
      → All (λ ref. has_kind kind_associate ref ≡ true → contains ref.target dead ≡ true) refs
      → All (λ ref. has_kind kind_associate ref ≡ true → ref.target ≢ x) refs
  not_target x dead [] alive h = tt
  not_target x dead (ref ∷ refs) alive (h, hs) = (
    λ kind same. cc (alive, h kind, ap (λ y. contains y dead) same),
    not_target x dead refs alive hs,
  )

  -- If `resolve` hands on atoms, the walk over the inputs has ended, and by the state that it left no
  -- atom that is handed on is coalesced away, or is the target of a reference of kind
  -- `kindAssociate` of an atom that is coalesced away.
  pub resolve-output :
      (fuel : ℕ) (nodes : List Node) (r after : Resolver) (atoms : List Address)
      → resolve ctx files fuel nodes r ≡ ok (some atoms, after)
      → (resolved : Resolver) × (resolve_loop ctx files fuel nodes 0 [] r ≡ ok (true, resolved))
        × ((x : Address)
            → contains x atoms ≡ true
            → (is_coalesced_away x resolved.symbol_table ≡ false) × HasNoOwner resolved x)
  unfolding remove_coalesced_away_atoms
  resolve-output fuel nodes r after atoms h =
      let (resolved, walks, updated, before, (settles, strips), (_, removed, are)) =
        resolve-inversion fuel nodes r after atoms h in
      let (table, buried) = update_references-Buries resolved updated settles in
      let (table', dead) = dead_strip_optimize-keeps fuel updated before strips in
      let p = λ (a : Address).
        not (is_coalesced_away a before.symbol_table || contains a before.dead_atoms) in
      (
        resolved,
        walks,
        λ x m.
            let kept = ((contains-keep_if p x before.atoms).0 (ap (contains x) are ∙ m)).1 in
            (
              rw (sym (table' ∙ table)) (ground (arith, kept)),
              λ a here gone.
                  not_target x updated.dead_atoms (references_of (resolved.memory a))
                    (rw (sym dead) (ground (arith, kept))) (buried a here gone),
            ),
      )

  -- Why an undefined atom is not reported.
  abbrev pub Excused : Resolver → Address → UndefinedAtom → Type 0
  Excused r a u =
      (is_coalesced_away a r.symbol_table ≡ true)
      ⊎ ¬ (u.can_be_null ≡ never)
      ⊎ ((ctx.dead_strip ≡ true) × (contains a r.live_atoms ≡ false))
      ⊎ (((files u.file).kind ≡ shared_library_file) × (ctx.allow_shlib_undefines ≡ true))

  is_reported-false :
      (r : Resolver) (a : Address) (u : UndefinedAtom)
      → is_reported ctx files r.symbol_table a u ≡ false
      → Excused r a u
  unfolding is_reported
  is_reported-false r a u h = ground (arith, h)

  check_undefines-false :
      (r : Resolver) (name : String) (a : Address) (u : UndefinedAtom)
      → check_undefines ctx files r ≡ false
      → find_by_name name r.symbol_table ≡ some a
      → r.memory a ≡ undefined_atom u
      → Excused r a u
  unfolding check_undefines is_reported reported_at
  check_undefines-false r name a u h found at_a =
      elim (Bool-cases (is_coalesced_away a r.symbol_table)) [
        | inl away ↦ inl away
        | inr here ↦
            let t = r.symbol_table in
            let m =
              contains-undefines_in r.memory t t.name_table name a found (rw at_a refl) here in
            let p = reported_at ctx files r.memory t in
            elim (Bool-cases (ctx.dead_strip && not (contains a r.live_atoms))) [
              | inl dead ↦ inr (inr (inl (ground (arith, dead))))
              | inr kept ↦
                  (let live = λ (x : Address). contains x r.live_atoms in
                    let remaining = undefines_in r.memory t t.name_table in
                    let watched = if ctx.dead_strip then keep_if live remaining else remaining in
                    let there : contains a watched ≡ true =
                      ground (arith, contains-keep_if live a remaining, m, kept) in
                    let same : p a ≡ is_reported ctx files t a u = rw (at_a, reported_at) refl in
                    is_reported-false r a u (sym same ∙ any_reported-false p watched a h there))
            ]
      ]

  -- If `resolve` hands on atoms and undefined symbols may not remain, then an undefined atom that
  -- a name still leads to is coalesced away, can be null, is dead where dead stripping is on, or
  -- comes from a shared library that may have undefined symbols.
  pub resolve-no_undefines :
      (fuel : ℕ) (nodes : List Node) (r after : Resolver) (atoms : List Address)
      → resolve ctx files fuel nodes r ≡ ok (some atoms, after)
      → ctx.allow_remaining_undefines ≡ false
      → (name : String) (a : Address) (u : UndefinedAtom)
      → find_by_name name after.symbol_table ≡ some a
      → after.memory a ≡ undefined_atom u
      → Excused after a u
  unfolding remove_coalesced_away_atoms
  resolve-no_undefines fuel nodes r after atoms h strict name a u found at_a =
      let (_, _, _, before, _, (passed, removed, _)) =
        resolve-inversion fuel nodes r after atoms h in
      subst (λ final. Excused final a u) removed
        (check_undefines-false before name a u (ground (arith, passed, strict))
          (ap (λ (final : Resolver). find_by_name name final.symbol_table) removed ∙ found)
          (ap (λ (final : Resolver). final.memory a) removed ∙ at_a))
