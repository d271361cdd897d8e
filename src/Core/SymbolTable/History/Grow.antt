-- ===== src/Core/SymbolTable/History/Grow.antt =====
-- Additions that make no entry in `_replacedAtoms` keep the invariant.
use lld_or1k.Base.{
  ◌≡◌, false, none, List, ◌∷◌, arith, ◌==◌, length, contains, address_eq, name_eq, inl, inr,
  Bool-cases, ==_refl,
}
use lld_or1k.Base.Table.{find, set, find-set}
use lld_or1k.Core.Atom.{Address, Memory, atom_name}
use lld_or1k.Core.SymbolTable.Replacement.{chase-here}
use lld_or1k.Core.SymbolTable.{SymbolTable, find_by_name}
use lld_or1k.Core.SymbolTable.History.{Inv}

module _ (mem : Memory) where
  -- `add` may file under its name only an atom that is new to the table.
  module _ (a : Address) {seen named : List Address} (t : SymbolTable) (inv : Inv mem seen named t)
      (new : contains a seen ≡ false) where
    pub not_named : contains a named ≡ false
    not_named = ground (arith, inv.known a)

    -- A table that only gets a new entry keeps all chains.
    pub Inv-ignored : Inv mem (a ∷ seen) named t
    Inv-ignored = record {
      fresh = λ x h. ground (arith, inv.fresh x);
      known = λ x h. ground (arith, inv.known x);
      by_name = λ n x h. ground (arith, inv.by_name n x);
      by_content = λ x h. ground (arith, inv.by_content x);
      by_group = λ n x h. ground (arith, inv.by_group n x);
      ends = inv.ends;
      resolved = inv.resolved;
    }

    pub Inv-content : Inv mem (a ∷ seen) named (record t { content_table = a ∷ t.content_table })
    Inv-content = record {
      fresh = λ x h. ground (arith, inv.fresh x);
      known = λ x h. ground (arith, inv.known x);
      by_name = λ n x h. ground (arith, inv.by_name n x);
      by_content = λ x h. ground (arith, inv.by_content x, inv.fresh a new, not_named);
      by_group = λ n x h. ground (arith, inv.by_group n x);
      ends = inv.ends;
      resolved = inv.resolved;
    }

    pub Inv-group :
        find (atom_name (mem a)) t.group_table ≡ none
        → Inv mem
            (a ∷ seen)
            named
            (record t { group_table = set (atom_name (mem a)) a t.group_table })
    Inv-group none_yet = record {
      fresh = λ x h. ground (arith, inv.fresh x);
      known = λ x h. ground (arith, inv.known x);
      by_name = λ n x h. ground (arith, inv.by_name n x);
      by_content = λ x h. ground (arith, inv.by_content x);
      by_group = λ n x h. ground (
        arith,
        inv.by_group n x,
        inv.fresh a new,
        not_named,
        find-set n (atom_name (mem a)) a t.group_table,
      );
      ends = inv.ends;
      resolved = inv.resolved;
    }

    pub Inv-registered :
        find_by_name (atom_name (mem a)) t ≡ none
        → Inv mem
            (a ∷ seen)
            (a ∷ named)
            (record t { name_table = set (atom_name (mem a)) a t.name_table })
    Inv-registered absent = record {
      fresh = λ x h. ground (arith, inv.fresh x);
      known = λ x h. ground (arith, inv.known x);
      by_name = λ n x h. ground (
        arith,
        inv.by_name n x,
        inv.fresh a new,
        find-set n (atom_name (mem a)) a t.name_table,
        name_eq.same_iff n (atom_name (mem a)),
      );
      by_content = λ x h. ground (arith, inv.by_content x);
      by_group = λ n x h. ground (arith, inv.by_group n x);
      ends = inv.ends;
      resolved = λ x h. elim (Bool-cases (x == a)) [
        | inl same ↦
            let e = (address_eq.same_iff x a).0 same in
            (
              a,
              rw e (rw find-set (rw ==_refl)),
              rw e (chase-here t.replaced_atoms (length t.replaced_atoms) a (inv.fresh a new)),
            )
        | inr other ↦
            let (r, at, path) = inv.resolved x (ground arith) in
            (
              r,
              ground (
                arith,
                find-set (atom_name (mem x)) (atom_name (mem a)) a t.name_table,
                name_eq.same_iff (atom_name (mem x)) (atom_name (mem a)),
              ),
              path,
            )
      ];
    }
