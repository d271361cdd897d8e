-- ===== src/Core/Resolver/Live.antt =====
-- Marking live atoms: `markLive` of lib/Core/Resolver.cpp, on fuel.
pub mod Marking
use lld_or1k.Base.{
  ℕ, zero, suc, ◌≤◌, ◌<◌, ◌≡◌, refl, ◌⊎◌, ⊎_elim, inl, inr, ◌↔◌, true, false, Option, none, some,
  List, [], ◌∷◌, ◌++◌, map, arith, ◌==◌, length, contains, contains-cons, contains-head,
  contains-tail, subst, address_eq, Bool-cases, Option-cases, if◌then◌else◌,
}
use lld_or1k.Core.Atom.{Address, Memory, defined_atom}

-- `_reverseRef.equal_range(a)`
unfoldable pub referrers : Address → List (Address × Address) → List Address
referrers a [] = []
referrers a ((t, s) ∷ rest) = if a == t then s ∷ referrers a rest else referrers a rest

-- What `markLive` visits after an atom.
unfoldable pub successors : Memory → List (Address × Address) → Address → List Address
unfolding referrers
successors mem reverse a = elim (mem a) [
  | defined_atom d ↦ map (λ r. r.target) d.references ++ referrers a reverse
  | _ ↦ []
]

-- The calls of `markLive` on a list of atoms, one after the other.
unfoldable pub mark_each :
    (Address → List Address → Option (List Address))
    → List Address
    → List Address
    → Option (List Address)
mark_each mark [] live = some live
mark_each mark (a ∷ rest) live = elim (mark a live) [
  | none ↦ none
  | some next ↦ mark_each mark rest next
]

module _ (next : Address → List Address) where
  -- `markLive` over the graph `next`, a recursion as deep as the longest path of unmarked atoms.
  unfoldable pub mark_live : ℕ → Address → List Address → Option (List Address)
  mark_live zero a live = none
  mark_live (suc fuel) a live = elim (contains a live) [
    | true ↦ some live
    | false ↦ mark_each (mark_live fuel) (next a) (a ∷ live)
  ]

  -- The atoms that can be reached from `a`.
  pub data Reach (a : Address) : Address → Type 0 where
    here : Reach a a
    step : {x y : Address} → Reach a x → contains y (next x) ≡ true → Reach a y

  pub Reach-trans : {a b c : Address} → Reach a b → Reach b c → Reach a c
  Reach-trans p here = p
  Reach-trans p (step q e) = step (Reach-trans p q) e
