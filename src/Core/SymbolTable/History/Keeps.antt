-- ===== src/Core/SymbolTable/History/Keeps.antt =====
-- Every table of a run satisfies the invariant.
use lld_or1k.Base.{
  suc, ◌≡◌, Bool, true, false, some, List, [], ◌∷◌, arith, if◌then◌else◌, length, contains,
  address_eq, name_eq, inl, inr, Option-cases, Bool-cases,
}
use lld_or1k.Base.Table.{find}
use lld_or1k.Core.Atom.{Address, Memory, atom_name}
use lld_or1k.Core.Context.{LinkingContext}
use lld_or1k.Core.SymbolTable.Effect.{
  Effect, goes_by_name, registered, added_again, coalesced, new_content, old_content, ignored,
  add-Effect,
}
use lld_or1k.Core.SymbolTable.Replacement.{chase_end}
use lld_or1k.Core.SymbolTable.{
  SymbolTable, add_group, coalesce, find_by_name, find_content, replacement, is_coalesced_away,
}
use lld_or1k.Core.SymbolTable.History.{Inv, Built, start, add_step, group_step, Inv-start}
use lld_or1k.Core.SymbolTable.History.Grow.{Inv-ignored, Inv-content, Inv-group, Inv-registered}
use lld_or1k.Core.SymbolTable.History.Edges.{Inv-loses, Inv-first, Inv-second}

module _ (mem : Memory) (ctx : LinkingContext) where
  find_content-contains :
      (a e : Address) (l : List Address) → find_content mem a l ≡ some e → contains e l ≡ true
  unfolding find_content
  find_content-contains a e [] h = cc
  find_content-contains a e (x ∷ l) h = ground (arith, find_content-contains a e l)

  module _ (a : Address) {seen named : List Address} (t : SymbolTable) (inv : Inv mem seen named t)
      (new : contains a seen ≡ false) where
    Inv-coalesce :
        (w : Address) (chosen : Bool)
        → find_by_name (atom_name (mem a)) t ≡ some w
        → Inv mem (a ∷ seen) (a ∷ named) (coalesce ctx (atom_name (mem a)) w a chosen t)
    unfolding coalesce
    Inv-coalesce w chosen at = elim (Bool-cases (ctx.notify_coalesce w a chosen)) [
      | inl yes_new ↦ rw yes_new (Inv-second mem a t inv new w at)
      | inr keep ↦ rw keep (Inv-first mem a t inv new w (inv.by_name _ w at).0 at)
    ]

    Inv-add :
        (b : Bool) (u : SymbolTable)
        → Effect mem ctx a t b u
        → Inv mem (a ∷ seen) (if goes_by_name (mem a) then a ∷ named else named) u
    Inv-add b u (registered g absent _ e) = rw (e, g) (Inv-registered mem a t inv new absent)
    Inv-add b u (added_again g found _ e) = cc ((inv.by_name _ a found).0.0)
    Inv-add b u (coalesced w chosen g found _ _ _ e) = rw (e, g) (Inv-coalesce w chosen found)
    Inv-add b u (new_content g _ _ e) = rw (e, g) (Inv-content mem a t inv new)
    Inv-add b u (old_content w g found _ e) =
        rw (e, g)
          (Inv-loses mem a t inv new w (inv.by_content w (find_content-contains a w _ found)).0)
    Inv-add b u (ignored g _ e) = rw (e, g) (Inv-ignored mem a t inv new)

    Inv-add_group : Inv mem (a ∷ seen) named (add_group mem a t).1
    unfolding add_group
    Inv-add_group = elim (Option-cases (find (atom_name (mem a)) t.group_table)) [
      | inl e ↦ rw (e, add_group) (Inv-group mem a t inv new e)
      | inr (w, e) ↦ rw (e, add_group) (Inv-loses mem a t inv new w (inv.by_group _ w e).0)
    ]

  pub Built-Inv :
      {seen named : List Address} {t : SymbolTable}
      → Built mem ctx seen named t
      → Inv mem seen named t
  Built-Inv start = Inv-start mem
  Built-Inv (add_step {t} a {b} {u} built new e) =
      Inv-add a t (Built-Inv built) new b u (add-Effect mem ctx a t e)
  Built-Inv (group_step {t} a built new) = Inv-add_group a t (Built-Inv built) new

  -- In a table that a history of calls built, the loop of `replacement` from any atom ends within
  -- one pass over the entries, at an atom that has not been coalesced away.
  pub replacement-ends :
      {seen named : List Address} (t : SymbolTable) (a : Address)
      → Built mem ctx seen named t
      → (r : Address) × (replacement a t ≡ some r) × (is_coalesced_away r t ≡ false)
  unfolding replacement is_coalesced_away
  replacement-ends t a built =
      let (r, path) = (Built-Inv built).ends a in
      (r, path, ground (arith, chase_end t.replaced_atoms (suc (length t.replaced_atoms)) a r path))

  -- In a table that a history of calls built, `replacement` of an atom that was filed under its name
  -- is the atom that `findByName` now gives, and that atom is not coalesced away.
  pub replacement-find_by_name :
      {seen named : List Address} (t : SymbolTable) (a : Address)
      → Built mem ctx seen named t
      → contains a named ≡ true
      → (r : Address) × (find_by_name (atom_name (mem a)) t ≡ some r)
        × (replacement a t ≡ some r)
        × (is_coalesced_away r t ≡ false)
  unfolding replacement is_coalesced_away
  replacement-find_by_name t a built filed =
      let (r, found, path) = (Built-Inv built).resolved a filed in
      (
        r,
        found,
        path,
        ground (arith, chase_end t.replaced_atoms (suc (length t.replaced_atoms)) a r path),
      )
