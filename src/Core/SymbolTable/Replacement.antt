-- ===== src/Core/SymbolTable/Replacement.antt =====
-- The loop of `SymbolTable::replacement` (lib/Core/SymbolTable.cpp): what it returns, and how one
-- more entry of the table changes that.
use lld_or1k.Base.{
  ℕ, zero, suc, ◌≡◌, ◌≢◌, none, some, arith, ◌==◌, if◌then◌else◌, address_eq, Option-cases, inl,
  inr,
}
use lld_or1k.Base.Table.{Table, find, set, find-set}
use lld_or1k.Core.Atom.{Address}
use lld_or1k.Core.SymbolTable.{chase}

module _ (m : Table Address Address) where
  -- What the loop returns has no entry of its own.
  pub chase_end : (f : ℕ) (a r : Address) → chase f m a ≡ some r → find r m ≡ none
  unfolding chase
  chase_end zero a r h = cc
  chase_end (suc f) a r h = elim (Option-cases (find a m)) [
    | inl e ↦ ground arith
    | inr (b, e) ↦ chase_end f b r (rw (e, chase) at h)
  ]

  pub chase-here : (f : ℕ) (a : Address) → find a m ≡ none → chase (suc f) m a ≡ some a
  unfolding chase
  chase-here f a h = rw (h, chase)

  -- An entry for an end `k` lengthens each chain that ends there by one step.
  pub chase-set :
      (k v : Address)
      → find k m ≡ none
      → find v m ≡ none
      → v ≢ k
      → (f : ℕ) (a r : Address) → chase f m a ≡ some r
      → chase (suc f) (set k v m) a ≡ some (if r == k then v else r)
  unfolding chase
  chase-set k v hk hv ne zero a r h = cc
  chase-set k v hk hv ne (suc f) a r h = elim (Option-cases (find a m)) [
    | inl e ↦ ground (arith, find-set a k v m, find-set v k v m)
    | inr (b, e) ↦
        ground (arith, find-set a k v m, chase-set k v hk hv ne f b r (rw (e, chase) at h))
  ]
