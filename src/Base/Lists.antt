-- ===== src/Base/Lists.antt =====
-- Lists measured by native numbers, and membership by an equality test.
use Prim.Native.Nat.{ℕ, zero, suc, ◌+◌}
use mathlib.Core.Path.{◌≡◌, refl}
use mathlib.Core.Logic.{◌⊎◌}
use mathlib.Core.Bool.{Bool, true, false, ◌||◌}
use mathlib.Core.List.{List, [], ◌∷◌, ◌++◌}
use mathlib.Core.Option.{Option, none, some}
use native.Mathlib.Omega.{arith}
use lld_or1k.Base.Equality.{Eq, ◌==◌}

module _ {ℓ} {A : Type ℓ} where
  abbrev pub length : List A → ℕ
  length [] = 0
  length (_ ∷ xs) = suc (length xs)

  abbrev pub get_elem? : List A → ℕ → Option A
  get_elem? [] i = none
  get_elem? (x ∷ xs) zero = some x
  get_elem? (x ∷ xs) (suc i) = get_elem? xs i

  pub length-append : (xs ys : List A) → length (xs ++ ys) ≡ length xs + length ys
  length-append [] ys = omega arith
  length-append (x ∷ xs) ys = omega (arith, length-append xs ys)

-- Every element has the property.
abbrev pub All {ℓ κ} : {A : Type ℓ} → (A → Type κ) → List A → Type κ
All P [] = Unit
All P (x ∷ xs) = P x × All P xs

-- `set.count(a) > 0`, for a set kept as a list.
abbrev pub contains {ℓ} : {A : Type ℓ} ⦃e : Eq A⦄ → A → List A → Bool
contains a [] = false
contains a (x ∷ xs) = a == x || contains a xs

pub contains-cons {ℓ} :
    {A : Type ℓ} ⦃e : Eq A⦄ (x a : A) (l : List A)
    → contains x (a ∷ l) ≡ true
    → (x ≡ a) ⊎ (contains x l ≡ true)
contains-cons ⦃e⦄ x a l h = ground (arith, e.same_iff x a)

pub contains-head {ℓ} : {A : Type ℓ} ⦃e : Eq A⦄ (a : A) (l : List A) → contains a (a ∷ l) ≡ true
contains-head ⦃e⦄ a l = ground (arith, e.same_iff a a)

pub contains-tail {ℓ} :
    {A : Type ℓ} ⦃e : Eq A⦄ (x a : A) (l : List A) → contains x l ≡ true → contains x (a ∷ l) ≡ true
contains-tail ⦃e⦄ x a l h = ground arith

pub contains-append {ℓ} :
    {A : Type ℓ} ⦃e : Eq A⦄ (x : A) (l m : List A)
    → contains x (l ++ m) ≡ (contains x l || contains x m)
contains-append x [] m = refl
contains-append x (a ∷ l) m = ground (arith, contains-append x l m)
