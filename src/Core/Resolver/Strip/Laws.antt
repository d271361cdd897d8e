-- ===== src/Core/Resolver/Strip/Laws.antt =====
-- `deadStripOptimize` of lib/Core/Resolver.cpp keeps exactly what the roots lead to.
use lld_or1k.Base.{
  ℕ, zero, suc, ◌<◌, ◌≡◌, refl, ◌⊎◌, ⊎_elim, inl, inr, ◌↔◌, Bool, true, some, List, [], ◌∷◌, ◌++◌,
  arith, ◌==◌, ◌||◌, length, contains, address_eq, Bool-cases, if◌then◌else◌,
}
use lld_or1k.Core.Atom.{Address, Memory}
use lld_or1k.Core.Context.{LinkingContext}
use lld_or1k.Core.Outcome.{Outcome, ok}
use lld_or1k.Core.Resolver.Live.{mark_live, mark_each, successors, Reach}
use lld_or1k.Core.Resolver.Live.Marking.{IsClosed, mark_each-Reach}
use lld_or1k.Core.Resolver.Strip.{
  backrefs_of, index_atoms, is_absolute, add_global_roots, add_named_roots, keep_if,
  dead_strip_optimize,
}
use lld_or1k.Core.Resolver.{Resolver, insert}

-- Filtering keeps what passes the test.
pub contains-keep_if :
    (p : Address → Bool) (x : Address) (l : List Address)
    → (contains x (keep_if p l) ≡ true) ↔ ((contains x l ≡ true) × (p x ≡ true))
unfolding keep_if
contains-keep_if p x [] = (λ h. cc, λ h. cc (h.0))
contains-keep_if p x (a ∷ l) = elim (Bool-cases (x == a)) [
  | inl same ↦
      let e = (address_eq.same_iff x a).0 same in rw e (ground (arith, contains-keep_if p a l))
  | inr other ↦ ground (arith, contains-keep_if p x l)
]

contains-insert :
    (x a : Address) (l : List Address) → contains x (insert a l) ≡ (x == a || contains x l)
contains-insert x a l = ground arith

-- `_reverseRef` after the first loop.
unfoldable pub all_backrefs :
    Memory → List Address → List (Address × Address) → List (Address × Address)
all_backrefs mem [] reverse = reverse
all_backrefs mem (a ∷ rest) reverse = all_backrefs mem rest (backrefs_of mem a ++ reverse)

-- `_liveAtoms` after the first loop.
absolutes : Memory → List Address → List Address → List Address
absolutes mem [] live = live
absolutes mem (a ∷ rest) live =
    absolutes mem rest (if is_absolute (mem a) then insert a live else live)

module _ (mem : Memory) where
  successors-absolute :
      (reverse : List (Address × Address)) (a : Address)
      → is_absolute (mem a) ≡ true
      → successors mem reverse a ≡ []
  unfolding successors
  successors-absolute reverse a h = ground arith

  mark_live-absolute :
      (reverse : List (Address × Address)) (fuel : ℕ) (a : Address) (live : List Address)
      → is_absolute (mem a) ≡ true
      → mark_live (successors mem reverse) (suc fuel) a live ≡ some (insert a live)
  unfolding mark_live mark_each
  mark_live-absolute reverse fuel a live h = elim (Bool-cases (contains a live)) [
    | inl old ↦ rw (old, mark_live)
    | inr new ↦ rw (new, mark_live) (rw (successors-absolute reverse a h))
  ]

  index_atoms_lem :
      (fuel : ℕ) (l : List Address) (reverse : List (Address × Address)) (live : List Address)
      → index_atoms mem (suc fuel) l reverse live
        ≡ some (all_backrefs mem l reverse, absolutes mem l live)
  unfolding index_atoms all_backrefs absolutes
  index_atoms_lem fuel [] reverse live = refl
  index_atoms_lem fuel (a ∷ rest) reverse live = elim (Bool-cases (is_absolute (mem a))) [
    | inl yes_abs ↦
        rw (yes_abs, index_atoms)
          (rw (mark_live-absolute (backrefs_of mem a ++ reverse) fuel a live yes_abs)
            (index_atoms_lem fuel rest (backrefs_of mem a ++ reverse) (insert a live)))
    | inr not_abs ↦
        rw (not_abs, index_atoms) (index_atoms_lem fuel rest (backrefs_of mem a ++ reverse) live)
  ]

  contains-absolutes :
      (x : Address) (l live : List Address)
      → (contains x (absolutes mem l live) ≡ true)
        ↔ ((contains x live ≡ true) ⊎ (contains x l ≡ true) × (is_absolute (mem x) ≡ true))
  unfolding absolutes
  contains-absolutes x [] live = (inl, ⊎_elim (λ m. m) (λ m. cc (m.0)))
  contains-absolutes x (a ∷ rest) live = elim (Bool-cases (x == a)) [
    | inl same ↦
        let e = (address_eq.same_iff x a).0 same in
        rw e (
          ground (
            arith,
            contains-absolutes a rest (if is_absolute (mem a) then insert a live else live),
          ))
    | inr other ↦
        ground
          (arith, contains-absolutes x rest (if is_absolute (mem a) then insert a live else live))
  ]

-- An atom that `deadStripOptimize` keeps: an absolute one, or one that a root leads to, along
-- references and back along the references that `isBackref` names.
abbrev pub IsKept : Resolver → List Address → Address → Type 0
IsKept r roots x =
    (is_absolute (r.memory x) ≡ true)
    ⊎ ((s : Address) × (contains s roots ≡ true)
        × Reach (successors r.memory (all_backrefs r.memory r.atoms [])) s x)

module _ (ctx : LinkingContext) (r : Resolver) where
  -- The roots that the loops of `deadStripOptimize` gather.
  abbrev pub gathered_roots : Outcome (List Address)
  gathered_roots = add_named_roots r.symbol_table ctx.dead_strip_roots (
      if ctx.globals_are_dead_strip_roots
      then add_global_roots r.memory r.atoms r.dead_strip_roots
      else r.dead_strip_roots)

  -- With dead stripping on, in a state where nothing is marked yet, with the roots gathered, and
  -- with more fuel than there are atoms in a closed set around the roots: the pass ends, and an
  -- atom stays exactly if it was there and is kept.
  pub dead_strip_optimize-IsKept :
      (all : List Address) (fuel : ℕ) (roots : List Address)
      → ctx.dead_strip ≡ true
      → r.live_atoms ≡ []
      → r.reverse_ref ≡ []
      → gathered_roots ≡ ok roots
      → IsClosed (successors r.memory (all_backrefs r.memory r.atoms [])) all
      → length all < fuel
      → ((x : Address) → contains x roots ≡ true → contains x all ≡ true)
      → (after : Resolver) × (dead_strip_optimize ctx fuel r ≡ ok after)
        × ((x : Address)
            → (contains x after.atoms ≡ true) ↔ ((contains x r.atoms ≡ true) × IsKept r roots x))
  unfolding dead_strip_optimize
  dead_strip_optimize-IsKept all zero roots on live reverse gathered whole enough inside =
      absurd (omega arith)
  dead_strip_optimize-IsKept all (suc fuel) roots on live reverse gathered whole enough inside =
      let next = successors r.memory (all_backrefs r.memory r.atoms []) in
      let (marked, e, which) =
        mark_each-Reach next all (suc fuel) roots (absolutes r.memory r.atoms []) whole enough
          inside
          (λ x y m. rw (
            successors-absolute r.memory (all_backrefs r.memory r.atoms []) x (
              ⊎_elim (λ none_yet. cc) (λ abs. abs.1)
                ((contains-absolutes r.memory x r.atoms []).0 m)))) in
      (
        record r {
          reverse_ref = all_backrefs r.memory r.atoms [];
          live_atoms = marked;
          dead_strip_roots = roots;
          atoms = keep_if (λ a. contains a marked) r.atoms;
        },
        simp (on, live, reverse, index_atoms_lem, gathered, e),
        λ x.
            let kept = contains-keep_if (λ a. contains a marked) x r.atoms in
            let early = contains-absolutes r.memory x r.atoms [] in
            (
              λ m.
                  let (was, lives) = kept.0 m in
                  (
                    was,
                    ⊎_elim (λ old. ⊎_elim (λ none_yet. cc) (λ abs. inl (abs.1)) (early.0 old)) inr
                        ((which x).0 lives),
                  ),
              λ (was, why).
                  kept.1
                    (was, (which x).1 (⊎_elim (λ abs. inl (early.1 (inr (was, abs)))) inr why)),
            ),
      )
