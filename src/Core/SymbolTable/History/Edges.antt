-- ===== src/Core/SymbolTable/History/Edges.antt =====
-- Additions that make an entry in `_replacedAtoms` keep the invariant.
use lld_or1k.Base.{
  suc, ◌≡◌, ◌∙◌, true, false, some, List, ◌∷◌, arith, ◌==◌, if◌then◌else◌, length, contains,
  address_eq, name_eq, inl, inr, Bool-cases, ==_refl,
}
use lld_or1k.Base.Table.{find, set, find-set, length-set_fresh}
use lld_or1k.Core.Atom.{Address, Memory, atom_name}
use lld_or1k.Core.SymbolTable.Replacement.{chase-here, chase-set}
use lld_or1k.Core.SymbolTable.{SymbolTable, add_replacement, find_by_name, chase}
use lld_or1k.Core.SymbolTable.History.{Inv, IsLive}
use lld_or1k.Core.SymbolTable.History.Grow.{not_named}

module _ (mem : Memory) where
  -- `add` may file under its name only an atom that is new to the table.
  module _ (a : Address) {seen named : List Address} (t : SymbolTable) (inv : Inv mem seen named t)
      (new : contains a seen ≡ false) where
    -- A new atom gives way to the live atom `w`.
    module _ (w : Address) (live : IsLive seen t w) where
      edge_chase :
          (x r : Address)
          → chase (suc (length t.replaced_atoms)) t.replaced_atoms x ≡ some r
          → chase (suc (length (set a w t.replaced_atoms))) (set a w t.replaced_atoms) x
            ≡ some (if r == a then w else r)
      edge_chase x r h =
          rw (length-set_fresh a w t.replaced_atoms (inv.fresh a new))
            (chase-set t.replaced_atoms a w (inv.fresh a new) live.1 (ground arith) _ x r h)

      edge_resolved :
          (x : Address)
          → contains x named ≡ true
          → (r : Address) × (find_by_name (atom_name (mem x)) t ≡ some r)
            × (chase (suc (length (set a w t.replaced_atoms))) (set a w t.replaced_atoms) x
                ≡ some r)
      edge_resolved x h =
          let (r, at, path) = inv.resolved x h in
          (r, at, ground (arith, edge_chase x r path, inv.by_name (atom_name (mem x)) r))

      pub Inv-loses : Inv mem (a ∷ seen) named (add_replacement a w t)
      unfolding add_replacement
      Inv-loses = record {
        fresh = λ x h. ground (arith, inv.fresh x, find-set x a w t.replaced_atoms);
        known = λ x h. ground (arith, inv.known x);
        by_name = λ n x h. ground (arith, inv.by_name n x, find-set x a w t.replaced_atoms);
        by_content = λ x h. ground (arith, inv.by_content x, find-set x a w t.replaced_atoms);
        by_group = λ n x h. ground (arith, inv.by_group n x, find-set x a w t.replaced_atoms);
        ends = λ x. let (r, path) = inv.ends x in (_, edge_chase x r path);
        resolved = edge_resolved;
      }

      pub Inv-first :
          find_by_name (atom_name (mem a)) t ≡ some w
          → Inv mem (a ∷ seen) (a ∷ named) (add_replacement a w t)
      unfolding add_replacement
      Inv-first at = record {
        fresh = Inv-loses.fresh;
        known = λ x h. ground (arith, inv.known x);
        by_name = λ n x h. ground (arith, Inv-loses.by_name n x, inv.by_name n x);
        by_content = λ x h.
            ground (arith, Inv-loses.by_content x, inv.by_content x, not_named mem a t inv new);
        by_group = λ n x h.
            ground (arith, Inv-loses.by_group n x, inv.by_group n x, not_named mem a t inv new);
        ends = Inv-loses.ends;
        resolved = λ x h. elim (Bool-cases (x == a)) [
          | inl same ↦
              let e = (address_eq.same_iff x a).0 same in
              (
                w,
                rw e at,
                rw e (
                    ground (
                      arith,
                      edge_chase a a (
                          chase-here t.replaced_atoms (length t.replaced_atoms) a
                            (inv.fresh a new)),
                    )),
              )
          | inr other ↦ edge_resolved x (ground arith)
        ];
      }

    -- A new atom takes the place of the atom `w` of its name.
    module _ (w : Address) (at : find_by_name (atom_name (mem a)) t ≡ some w) where
      win_chase :
          (x r : Address)
          → chase (suc (length t.replaced_atoms)) t.replaced_atoms x ≡ some r
          → chase (suc (length (set w a t.replaced_atoms))) (set w a t.replaced_atoms) x
            ≡ some (if r == w then a else r)
      win_chase x r h =
          let (live, _, _) = inv.by_name _ w at in
          rw (length-set_fresh w a t.replaced_atoms live.1)
            (chase-set t.replaced_atoms w a live.1 (inv.fresh a new) (ground arith) _ x r h)

      win_resolved :
          (x : Address)
          → contains x named ≡ true
          → (r : Address) × (find (atom_name (mem x)) (set (atom_name (mem a)) a t.name_table)
              ≡ some r)
            × (chase (suc (length (set w a t.replaced_atoms))) (set w a t.replaced_atoms) x
                ≡ some r)
      win_resolved x h =
          let (r, found, path) = inv.resolved x h in
          let here = find-set (atom_name (mem x)) (atom_name (mem a)) a t.name_table in
          let same = name_eq.same_iff (atom_name (mem x)) (atom_name (mem a)) in
          elim (Bool-cases (atom_name (mem x) == atom_name (mem a))) [
            | inl e ↦
                let r_is_w : r ≡ w = cc (same.0 e) in
                (a, here ∙ rw e, ground (arith, win_chase x r path))
            | inr e ↦ (
              r,
              here ∙ rw e found,
              ground (
                arith,
                win_chase x r path,
                inv.by_name (atom_name (mem x)) r,
                inv.by_name (atom_name (mem a)) w,
              ),
            )
          ]

      pub Inv-second :
          Inv mem
            (a ∷ seen)
            (a ∷ named)
            (add_replacement w a (record t { name_table = set (atom_name (mem a)) a t.name_table }))
      unfolding add_replacement
      Inv-second = record {
        fresh = λ x h. ground (
          arith,
          inv.fresh x,
          find-set x w a t.replaced_atoms,
          inv.by_name (atom_name (mem a)) w,
        );
        known = λ x h. ground (arith, inv.known x);
        by_name = λ n x h. ground (
          arith,
          inv.by_name n x,
          inv.by_name (atom_name (mem a)) w,
          inv.fresh a new,
          find-set n (atom_name (mem a)) a t.name_table,
          find-set x w a t.replaced_atoms,
          name_eq.same_iff n (atom_name (mem a)),
        );
        by_content = λ x h. ground (
          arith,
          inv.by_content x,
          find-set x w a t.replaced_atoms,
          inv.by_name (atom_name (mem a)) w,
        );
        by_group = λ n x h. ground (
          arith,
          inv.by_group n x,
          find-set x w a t.replaced_atoms,
          inv.by_name (atom_name (mem a)) w,
        );
        ends = λ x. let (r, path) = inv.ends x in (_, win_chase x r path);
        resolved = λ x h. elim (Bool-cases (x == a)) [
          | inl same ↦
              let e = (address_eq.same_iff x a).0 same in
              (
                a,
                rw e (rw find-set (rw ==_refl)),
                rw e (
                    ground (
                      arith,
                      win_chase a a (
                          chase-here t.replaced_atoms (length t.replaced_atoms) a
                            (inv.fresh a new)),
                    )),
              )
          | inr other ↦ win_resolved x (ground arith)
        ];
      }
