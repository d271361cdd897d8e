-- ===== src/Core/SymbolTable/Strength.antt =====
-- The order by which `addByName` (lib/Core/SymbolTable.cpp) prefers atoms of one name: a regular or
-- absolute definition over a shared library's export, and that over an undefined atom.
use lld_or1k.Base.{
  ℕ, ◌≤◌, ◌≡◌, ◌≢◌, Bool, true, false, none, some, List, ◌∷◌, String, arith, ◌==◌, if◌then◌else◌,
  contains, address_eq, name_eq, inl, inr, ap, ◌⊎◌, Bool-cases, ◌∙◌, sym,
}
use lld_or1k.Base.Table.{find, set, find-set}
use lld_or1k.Core.Atom.{
  Address, Memory, Atom, defined_atom, undefined_atom, shared_library_atom, absolute_atom,
  atom_name,
}
use lld_or1k.Core.Context.{LinkingContext, NotifyKeeps}
use lld_or1k.Core.Outcome.{ok}
use lld_or1k.Core.SymbolTable.Collide.{use_new}
use lld_or1k.Core.SymbolTable.Effect.{
  Effect, goes_by_name, registered, added_again, coalesced, new_content, old_content, ignored,
  add-Effect,
}
use lld_or1k.Core.SymbolTable.History.{Inv, Built, start, add_step, group_step}
use lld_or1k.Core.SymbolTable.History.Keeps.{Built-Inv}
use lld_or1k.Core.SymbolTable.{SymbolTable, coalesce, find_by_name, add_replacement, add_group}

abbrev pub strength : Atom → ℕ
strength (undefined_atom u) = 0
strength (shared_library_atom s) = 1
strength (absolute_atom a) = 2
strength (defined_atom d) = 2

either_way : (chosen : Bool) (n : ℕ) → if chosen then n ≤ n else n ≤ n
either_way true n = omega arith
either_way false n = omega arith

-- The atom that is kept is at least as strong as the one that is not.
use_new-strength :
    (allow : Bool) (e n : Atom) (chosen : Bool)
    → use_new allow e n ≡ ok chosen
    → if chosen then strength e ≤ strength n else strength n ≤ strength e
unfolding use_new
use_new-strength allow (defined_atom e) (defined_atom n) chosen h = either_way chosen 2
use_new-strength allow e n chosen h = ground arith

module _ (mem : Memory) (ctx : LinkingContext) (keeps : NotifyKeeps ctx) where
  -- Every filed atom is at most as strong as the one that the table has under its name.
  abbrev IsBounded : List Address → SymbolTable → Type 0
  IsBounded named t =
      (x r : Address)
      → contains x named ≡ true
      → find_by_name (atom_name (mem x)) t ≡ some r
      → strength (mem x) ≤ strength (mem r)

  module _ (a : Address) {seen named : List Address} (t : SymbolTable) (inv : Inv mem seen named t)
      (bounded : IsBounded named t) where
    found-set :
        (n : String) (r : Address)
        → find n (set (atom_name (mem a)) a t.name_table) ≡ some r
        → ((n ≡ atom_name (mem a)) × (r ≡ a))
          ⊎ ((n ≢ atom_name (mem a)) × (find_by_name n t ≡ some r))
    found-set n r h =
        let law = find-set n (atom_name (mem a)) a t.name_table in
        elim (Bool-cases (n == atom_name (mem a))) [
          | inl e ↦ inl ((name_eq.same_iff n _).0 e, ground arith)
          | inr e ↦ inr (ground (arith, name_eq.same_iff n (atom_name (mem a))), ground arith)
        ]

    not_new :
        (x : Address)
        → contains x (a ∷ named) ≡ true
        → atom_name (mem x) ≢ atom_name (mem a)
        → contains x named ≡ true
    not_new x h other = elim (Bool-cases (x == a)) [
      | inl same ↦ absurd (other (ap (λ y. atom_name (mem y)) ((address_eq.same_iff x a).0 same)))
      | inr e ↦ ground arith
    ]

    IsBounded-registered :
        find_by_name (atom_name (mem a)) t ≡ none
        → IsBounded (a ∷ named) (record t { name_table = set (atom_name (mem a)) a t.name_table })
    IsBounded-registered absent x r h found = elim (found-set (atom_name (mem x)) r found) [
      | inl (name, last) ↦ elim (Bool-cases (x == a)) [
        | inl same ↦ rw (last, (address_eq.same_iff x a).0 same) (omega arith)
        | inr other ↦
            let (w, there, _) = inv.resolved x (ground arith) in
            absurd (cc (sym there ∙ ap (λ n. find_by_name n t) name ∙ absent))
      ]
      | inr (other, before) ↦ bounded x r (not_new x h other) before
    ]

    IsBounded-coalesce :
        (w : Address) (chosen : Bool)
        → find_by_name (atom_name (mem a)) t ≡ some w
        → use_new ctx.allow_duplicates (mem w) (mem a) ≡ ok chosen
        → IsBounded (a ∷ named) (coalesce ctx (atom_name (mem a)) w a chosen t)
    unfolding coalesce add_replacement
    IsBounded-coalesce w true at decided x r h found =
        let stronger = use_new-strength ctx.allow_duplicates (mem w) (mem a) true decided in
        elim (found-set (atom_name (mem x)) r (rw (keeps w a true, coalesce) at found)) [
          | inl (name, last) ↦ elim (Bool-cases (x == a)) [
            | inl same ↦ rw (last, (address_eq.same_iff x a).0 same) (omega arith)
            | inr other ↦ rw last (
                omega (
                  arith,
                  stronger,
                  bounded x w (ground arith) (ap (λ n. find_by_name n t) name ∙ at),
                ))
          ]
          | inr (other, before) ↦ bounded x r (not_new x h other) before
        ]
    IsBounded-coalesce w false at decided x r h found =
        let stronger = use_new-strength ctx.allow_duplicates (mem w) (mem a) false decided in
        let before : find_by_name (atom_name (mem x)) t ≡ some r =
          rw (keeps w a false, coalesce) at found in
        elim (Bool-cases (x == a)) [
          | inl same ↦
              let e = (address_eq.same_iff x a).0 same in
              let r_is_w : r ≡ w = cc (ap (λ y. find_by_name (atom_name (mem y)) t) e) in
              rw (e, r_is_w) stronger
          | inr other ↦ bounded x r (ground arith) before
        ]

    IsBounded-add :
        contains a seen ≡ false
        → (b : Bool) (u : SymbolTable) → Effect mem ctx a t b u
        → IsBounded (if goes_by_name (mem a) then a ∷ named else named) u
    unfolding add_replacement
    IsBounded-add new b u (registered g absent _ e) = rw (e, g) (IsBounded-registered absent)
    IsBounded-add new b u (added_again g found _ e) = cc ((inv.by_name _ a found).0.0)
    IsBounded-add new b u (coalesced w chosen g found _ decided _ e) =
        rw (e, g) (IsBounded-coalesce w chosen found decided)
    IsBounded-add new b u (new_content g _ _ e) = rw (e, g) bounded
    IsBounded-add new b u (old_content w g found _ e) = rw (e, g) bounded
    IsBounded-add new b u (ignored g _ e) = rw (e, g) bounded

    name_table-add_group : (add_group mem a t).1.name_table ≡ t.name_table
    unfolding add_group
    name_table-add_group = ground arith

  Built-IsBounded :
      {seen named : List Address} {t : SymbolTable} → Built mem ctx seen named t → IsBounded named t
  Built-IsBounded start = λ x r h. cc
  Built-IsBounded (add_step {t} a {b} {u} built new e) =
      IsBounded-add a t (Built-Inv mem ctx built) (Built-IsBounded built) new b u
        (add-Effect mem ctx a t e)
  Built-IsBounded (group_step {t} a built new) = λ x r h found.
      Built-IsBounded built x r h
        (rw (name_table-add_group a t (Built-Inv mem ctx built) (Built-IsBounded built)) at found)

  -- In a table that a history of calls built, under a context whose hook keeps the choice, the atom
  -- that stands under a name is at least as strong as every atom that was filed under it:
  -- no definition loses to an export or to an undefined atom, and no export to an undefined atom.
  pub find_by_name-strength :
      {seen named : List Address} (t : SymbolTable) (x r : Address)
      → Built mem ctx seen named t
      → contains x named ≡ true
      → find_by_name (atom_name (mem x)) t ≡ some r
      → strength (mem x) ≤ strength (mem r)
  find_by_name-strength t x r built = Built-IsBounded built x r
