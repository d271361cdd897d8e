-- ===== src/Core/SymbolTable/History.antt =====
-- The tables that a run of the linker builds: lib/Core/SymbolTable.cpp, called once for each atom.
-- A history lists the atoms that were passed in, the last first; `named` are those that were filed
-- under their names.
pub mod Grow
pub mod Edges
pub mod Keeps
use lld_or1k.Base.{
  ℕ, suc, ◌≡◌, ◌≢◌, refl, ◌∙◌, Bool, true, false, ◌||◌, Option, none, some, List, [], ◌∷◌, String,
  arith, ◌==◌, if◌then◌else◌, length, contains, address_eq, name_eq, inl, inr, Option-cases,
  Bool-cases, ==_refl,
}
use lld_or1k.Base.Table.{Table, find, set, find-set, length-set_fresh}
use lld_or1k.Core.Atom.{Address, Memory, atom_name}
use lld_or1k.Core.Context.{LinkingContext}
use lld_or1k.Core.Outcome.{ok}
use lld_or1k.Core.SymbolTable.Effect.{
  Effect, goes_by_name, registered, added_again, coalesced, new_content, old_content, ignored,
  add-Effect,
}
use lld_or1k.Core.SymbolTable.Replacement.{chase-here, chase-set, chase_end}
use lld_or1k.Core.SymbolTable.{
  SymbolTable, empty_table, add, add_group, add_replacement, coalesce, find_by_name, find_content,
  chase, is_equal, replacement,
}

-- The entry of `a` stands for an atom that was added and that nothing has replaced.
abbrev pub IsLive : List Address → SymbolTable → Address → Type 0
IsLive seen t a = (contains a seen ≡ true) × (find a t.replaced_atoms ≡ none)

module _ (mem : Memory) where
  pub record Inv (seen named : List Address) (t : SymbolTable) : Type 0 where
    pub fresh : (a : Address) → contains a seen ≡ false → find a t.replaced_atoms ≡ none
    pub known : (a : Address) → contains a named ≡ true → contains a seen ≡ true
    pub by_name :
        (n : String) (a : Address)
        → find n t.name_table ≡ some a
        → IsLive seen t a × (contains a named ≡ true) × (atom_name (mem a) ≡ n)
    pub by_content :
        (a : Address)
        → contains a t.content_table ≡ true
        → IsLive seen t a × (contains a named ≡ false)
    pub by_group :
        (n : String) (a : Address)
        → find n t.group_table ≡ some a
        → IsLive seen t a × (contains a named ≡ false)
    pub ends :
        (a : Address)
        → (r : Address) × (chase (suc (length t.replaced_atoms)) t.replaced_atoms a ≡ some r)
    pub resolved :
        (a : Address)
        → contains a named ≡ true
        → (r : Address) × (find_by_name (atom_name (mem a)) t ≡ some r)
          × (chase (suc (length t.replaced_atoms)) t.replaced_atoms a ≡ some r)

  pub Inv-start : Inv [] [] empty_table
  unfolding chase find
  Inv-start = record {
    fresh = λ a h. refl;
    known = λ a h. cc;
    by_name = λ n a h. cc;
    by_content = λ a h. cc;
    by_group = λ n a h. cc;
    ends = λ a. (a, refl);
    resolved = λ a h. cc;
  }

module _ (mem : Memory) (ctx : LinkingContext) where
  -- The resolver passes a group's atom to `addGroup` and any other to `add`, each atom once.
  pub data Built : List Address → List Address → SymbolTable → Type 0 where
    start : Built [] [] empty_table
    add_step :
        {seen named : List Address} {t : SymbolTable} (a : Address) {b : Bool} {u : SymbolTable}
        → Built seen named t
        → contains a seen ≡ false
        → add mem ctx a t ≡ ok (b, u)
        → Built (a ∷ seen) (if goes_by_name (mem a) then a ∷ named else named) u
    group_step :
        {seen named : List Address} {t : SymbolTable} (a : Address)
        → Built seen named t
        → contains a seen ≡ false
        → Built (a ∷ seen) named (add_group mem a t).1
