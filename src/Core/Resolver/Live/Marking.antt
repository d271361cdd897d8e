-- ===== src/Core/Resolver/Live/Marking.antt =====
-- `markLive` of lib/Core/Resolver.cpp visits exactly what can be reached.
use lld_or1k.Base.{
  ℕ, zero, suc, ◌≤◌, ◌<◌, ◌≡◌, refl, ◌⊎◌, ⊎_elim, inl, inr, ◌↔◌, true, false, Option, some, List,
  [], ◌∷◌, arith, length, contains, contains-cons, contains-head, contains-tail, subst, address_eq,
  Bool-cases, Option-cases, if◌then◌else◌,
}
use lld_or1k.Core.Atom.{Address}
use lld_or1k.Core.Resolver.Live.{mark_each, mark_live, Reach, here, step, Reach-trans}

module _ (next : Address → List Address) where
  abbrev IsClosedIn : List Address → Address → Type 0
  IsClosedIn live x = (y : Address) → contains y (next x) ≡ true → contains y live ≡ true

  -- What a run from the atoms `from` adds to `live`.
  record Marks (from live after : List Address) : Type 0 where
    grows : (x : Address) → contains x live ≡ true → contains x after ≡ true
    starts : (x : Address) → contains x from ≡ true → contains x after ≡ true
    reached :
        (x : Address)
        → contains x after ≡ true
        → (contains x live ≡ true) ⊎ ((s : Address) × (contains s from ≡ true) × Reach next s x)
    closed : (x : Address) → contains x after ≡ true → (contains x live ≡ true) ⊎ IsClosedIn after x

  abbrev MarksAll : (Address → List Address → Option (List Address)) → Type 0
  MarksAll mark =
      (a : Address) (live after : List Address)
      → mark a live ≡ some after
      → Marks (a ∷ []) live after

  mark_each-Marks :
      (mark : Address → List Address → Option (List Address))
      → MarksAll mark
      → (from live after : List Address) → mark_each mark from live ≡ some after
      → Marks from live after
  unfolding mark_each
  mark_each-Marks mark sound [] live after h =
      let e : live ≡ after = cc in
      subst (Marks [] live) e (record {
        grows = λ x m. m;
        starts = λ x m. cc;
        reached = λ x m. inl m;
        closed = λ x m. inl m;
      })
  mark_each-Marks mark sound (a ∷ rest) live after h = elim (Option-cases (mark a live)) [
    | inl e ↦ absurd (cc (rw (e, mark_each) at h))
    | inr (middle, e) ↦
        let first = sound a live middle e in
        let others = mark_each-Marks mark sound rest middle after (rw (e, mark_each) at h) in
        record {
          grows = λ x m. others.grows x (first.grows x m);
          starts = λ x m. elim (contains-cons x a rest m) [
            | inl here_x ↦ others.grows x (first.starts x (ground arith))
            | inr later ↦ others.starts x later
          ];
          reached = λ x m. elim (others.reached x m) [
            | inl early ↦ elim (first.reached x early) [
              | inl old ↦ inl old
              | inr (s, from_s, path) ↦ inr (s, ground arith, path)
            ]
            | inr (s, from_s, path) ↦ inr (s, ground arith, path)
          ];
          closed = λ x m. elim (others.closed x m) [
            | inl early ↦ elim (first.closed x early) [
              | inl old ↦ inl old
              | inr shut ↦ inr (λ y e'. others.grows y (shut y e'))
            ]
            | inr shut ↦ inr shut
          ];
        }
  ]

  mark_live-Marks :
      (fuel : ℕ) (a : Address) (live after : List Address)
      → mark_live next fuel a live ≡ some after
      → Marks (a ∷ []) live after
  unfolding mark_live
  mark_live-Marks zero a live after h = cc
  mark_live-Marks (suc fuel) a live after h = elim (Bool-cases (contains a live)) [
    | inl old ↦
        let e : live ≡ after = cc (rw (old, mark_live) at h) in
        subst (Marks (a ∷ []) live) e (record {
          grows = λ x m. m;
          starts = λ x m. ground arith;
          reached = λ x m. inl m;
          closed = λ x m. inl m;
        })
    | inr new ↦
        let inner =
          mark_each-Marks (mark_live next fuel) (mark_live-Marks fuel) (next a) (a ∷ live) after
            (rw (new, mark_live) at h) in
        record {
          grows = λ x m. inner.grows x (contains-tail x a live m);
          starts = λ x m. inner.grows x (ground arith);
          reached = λ x m. elim (inner.reached x m) [
            | inl early ↦ elim (contains-cons x a live early) [
              | inl same ↦ inr (a, contains-head a [], rw same here)
              | inr old ↦ inl old
            ]
            | inr (s, edge, path) ↦
                inr (a, contains-head a [], Reach-trans next (step here edge) path)
          ];
          closed = λ x m. elim (inner.closed x m) [
            | inl early ↦ elim (contains-cons x a live early) [
              | inl same ↦ inr (λ y e. inner.starts y (rw same at e))
              | inr old ↦ inl old
            ]
            | inr shut ↦ inr shut
          ];
        }
  ]

  -- The measure: how many of the atoms in `all` are still to be marked.
  unmarked : List Address → List Address → ℕ
  unmarked [] live = 0
  unmarked (x ∷ all) live = if contains x live then unmarked all live else suc (unmarked all live)

  unmarked_mono :
      (all live after : List Address)
      → ((x : Address) → contains x live ≡ true → contains x after ≡ true)
      → unmarked all after ≤ unmarked all live
  unfolding unmarked
  unmarked_mono [] live after h = omega arith
  unmarked_mono (x ∷ all) live after h = ground (arith, unmarked_mono all live after h, h x)

  unmarked-cons :
      (all live : List Address) (a : Address)
      → contains a all ≡ true
      → contains a live ≡ false
      → unmarked all (a ∷ live) < unmarked all live
  unfolding unmarked
  unmarked-cons [] live a m n = cc
  unmarked-cons (x ∷ all) live a m n = elim (contains-cons a x all m) [
    | inl same ↦ ground (arith, unmarked_mono all live (a ∷ live) (λ y. contains-tail y a live))
    | inr later ↦ ground (arith, unmarked-cons all live a later n)
  ]

  unmarked-le-length : (all live : List Address) → unmarked all live ≤ length all
  unfolding unmarked
  unmarked-le-length [] live = omega arith
  unmarked-le-length (x ∷ all) live = ground (arith, unmarked-le-length all live)

  -- `all` holds each atom that an atom of it leads to.
  abbrev pub IsClosed : List Address → Type 0
  IsClosed all =
      (x y : Address) → contains x all ≡ true → contains y (next x) ≡ true → contains y all ≡ true

  module _ (all : List Address) (whole : IsClosed all) where
    abbrev Total : (Address → List Address → Option (List Address)) → List Address → Type 0
    Total mark live =
        (a : Address) (now : List Address)
        → contains a all ≡ true
        → unmarked all now ≤ unmarked all live
        → (after : List Address) × (mark a now ≡ some after)

    mark_each-Total :
        (mark : Address → List Address → Option (List Address)) (bound : List Address)
        → MarksAll mark
        → Total mark bound
        → (from now : List Address)
        → ((x : Address) → contains x from ≡ true → contains x all ≡ true)
        → unmarked all now ≤ unmarked all bound
        → (after : List Address) × (mark_each mark from now ≡ some after)
    unfolding mark_each
    mark_each-Total mark bound sound total [] now inside le = (now, refl)
    mark_each-Total mark bound sound total (a ∷ rest) now inside le =
        let (middle, e) = total a now (inside a (contains-head a rest)) le in
        let (after, e') =
          mark_each-Total mark bound sound total rest middle
            (λ x m. inside x (contains-tail x a rest m))
            (omega (arith, unmarked_mono all now middle (sound a now middle e).grows)) in
        (after, rw (e, mark_each) e')

    mark_live_total :
        (fuel : ℕ) (a : Address) (live : List Address)
        → contains a all ≡ true
        → unmarked all live < fuel
        → (after : List Address) × (mark_live next fuel a live ≡ some after)
    unfolding mark_live
    mark_live_total zero a live m h = absurd (omega arith)
    mark_live_total (suc fuel) a live m h = elim (Bool-cases (contains a live)) [
      | inl old ↦ (live, rw (old, mark_live))
      | inr new ↦
          let less = unmarked-cons all live a m new in
          let (after, e) =
            mark_each-Total (mark_live next fuel) (a ∷ live) (mark_live-Marks fuel)
              (λ b now inside le. mark_live_total fuel b now inside (omega (arith, less))) (next a)
              (a ∷ live) (λ x. whole a x m) (omega arith) in
          (after, rw (new, mark_live) e)
    ]

Reach-marked :
    (next : Address → List Address) (roots live after : List Address)
    → Marks next roots live after
    → ((x y : Address) → contains x live ≡ true → contains y (next x) ≡ false)
    → (s : Address) → contains s roots ≡ true
    → {x : Address} → Reach next s x
    → contains x after ≡ true
Reach-marked next roots live after marks ends s root here = marks.starts s root
Reach-marked next roots live after marks ends s root (step {x} {y} path e) =
    elim (marks.closed x (Reach-marked next roots live after marks ends s root path)) [
      | inl old ↦ absurd (cc (ends x y old))
      | inr shut ↦ shut y e
    ]

-- With more fuel than there are atoms in a closed set that holds the roots, and where what is marked
-- already leads nowhere: `markLive` on the roots ends, and marks what was marked before and what
-- can be reached from a root.
pub mark_each-Reach :
    (next : Address → List Address) (all : List Address) (fuel : ℕ) (roots live : List Address)
    → IsClosed next all
    → length all < fuel
    → ((x : Address) → contains x roots ≡ true → contains x all ≡ true)
    → ((x y : Address) → contains x live ≡ true → contains y (next x) ≡ false)
    → (after : List Address) × (mark_each (mark_live next fuel) roots live ≡ some after)
      × ((x : Address)
          → (contains x after ≡ true) ↔ (
              (contains x live ≡ true)
              ⊎ ((s : Address) × (contains s roots ≡ true) × Reach next s x)))
mark_each-Reach next all fuel roots live whole enough inside ends =
    let (after, e) =
      mark_each-Total next all whole (mark_live next fuel) live (mark_live-Marks next fuel)
        (λ a now m le.
          mark_live_total next all whole fuel a now m
            (omega (arith, le, unmarked-le-length next all live)))
        roots live inside (omega arith) in
    let marks =
      mark_each-Marks next (mark_live next fuel) (mark_live-Marks next fuel) roots live after e in
    (
      after,
      e,
      λ x. (
        marks.reached x,
        ⊎_elim (marks.grows x)
            (λ (s, root, path). Reach-marked next roots live after marks ends s root path),
      ),
    )
