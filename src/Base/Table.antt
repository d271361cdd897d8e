-- ===== src/Base/Table.antt =====
-- The hash tables of the source (`llvm::DenseMap`, `std::map`) as association lists: what a lookup
-- finds, and `table[key] = value`.
use lld_or1k.Base.{
  suc, ◌≡◌, refl, Option, none, some, List, [], ◌∷◌, arith, if◌then◌else◌, Eq, ◌==◌, length,
}

abbrev pub Table {ℓ} : Type ℓ → Type ℓ → Type ℓ
Table K V = List (K × V)

module _ {ℓ} {K V : Type ℓ} ⦃e : Eq K⦄ where
  unfoldable pub find : K → Table K V → Option V
  find k [] = none
  find k ((j, v) ∷ t) = if k == j then some v else find k t

  unfoldable pub set : K → V → Table K V → Table K V
  set k v [] = (k, v) ∷ []
  set k v ((j, w) ∷ t) = if k == j then (k, v) ∷ t else (j, w) ∷ set k v t

  pub find-set :
      (j k : K) (v : V) (t : Table K V) → find j (set k v t) ≡ (if j == k then some v else find j t)
  unfolding find set
  find-set j k v [] = refl
  find-set j k v ((i, w) ∷ t) =
      ground (arith, e.same_iff j k, e.same_iff k i, e.same_iff j i, find-set j k v t)

  pub length-set_fresh :
      (k : K) (v : V) (t : Table K V) → find k t ≡ none → length (set k v t) ≡ suc (length t)
  unfolding find set
  length-set_fresh k v [] h = refl
  length-set_fresh k v ((j, w) ∷ t) h = ground (arith, length-set_fresh k v t)
