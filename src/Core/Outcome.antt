-- ===== src/Core/Outcome.antt =====
-- How a call ends: in a value, in `llvm::report_fatal_error`, or in a failed `assert` or `cast`;
-- `out_of_fuel` is the model's own, for a loop that was given too few rounds.
use lld_or1k.Base.{◌≡◌, refl, Option, none, some}

pub data Outcome {ℓ} (A : Type ℓ) : Type ℓ where
  ok : A → Outcome A
  fatal_error : Outcome A
  assertion_failure : Outcome A
  out_of_fuel : Outcome A

infixl 5 ◌>>=◌
abbrev pub ◌>>=◌ {ℓ κ} : {A : Type ℓ} {B : Type κ} → Outcome A → (A → Outcome B) → Outcome B
ok a >>= f = f a
fatal_error >>= f = fatal_error
assertion_failure >>= f = assertion_failure
out_of_fuel >>= f = out_of_fuel

-- A loop on fuel that may run out.
abbrev pub or_fuel {ℓ} : {A : Type ℓ} → Option A → Outcome A
or_fuel none = out_of_fuel
or_fuel (some a) = ok a

-- Inversion of a successful bind, for proofs where the parts stay shut.
pub >>=-eq-ok {ℓ κ} :
    {A : Type ℓ} {B : Type κ} (call : Outcome A) (next : A → Outcome B) {last : B}
    → (call >>= next) ≡ ok last
    → (x : A) × (call ≡ ok x) × (next x ≡ ok last)
>>=-eq-ok (ok x) next run = (x, refl, run)
>>=-eq-ok fatal_error next run = cc
>>=-eq-ok assertion_failure next run = cc
>>=-eq-ok out_of_fuel next run = cc
