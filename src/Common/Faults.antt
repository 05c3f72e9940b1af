-- ===== src/Common/Faults.antt =====
-- What a run of kernel code can come to: a result, a bad memory access, or a loop cut short.
use mathlib.Core.Path.{◌≡◌, refl}
use mathlib.Core.Logic.{◌⊎◌, inl, inr}
use mathlib.Core.Option.{Option, none, some}

infixl 5 ◌>>=◌
-- `fault` is an access outside every object; `out_of_fuel` a loop longer than its fuel.
pub data Outcome {ℓ} (A : Type ℓ) : Type ℓ where
  fault : Outcome A
  out_of_fuel : Outcome A
  ok : A → Outcome A

abbrev pub ◌>>=◌ {ℓ κ} : {A : Type κ} {B : Type ℓ} → Outcome A → (A → Outcome B) → Outcome B
fault >>= k = fault
out_of_fuel >>= k = out_of_fuel
ok a >>= k = k a

-- A missing object is a fault.
abbrev pub of_option {ℓ} : {A : Type ℓ} → Option A → Outcome A
of_option none = fault
of_option (some a) = ok a

-- Inversion of a successful bind.
pub >>=-eq-ok {ℓ κ} :
    {A : Type ℓ} {B : Type κ} {y : B} (m : Outcome A) (k : A → Outcome B)
    → (m >>= k) ≡ ok y
    → (x : A) × (m ≡ ok x) × (k x ≡ ok y)
>>=-eq-ok fault k e = cc
>>=-eq-ok out_of_fuel k e = cc
>>=-eq-ok (ok x) k e = (x, refl, e)

pub ok-injective {ℓ} : {A : Type ℓ} {a b : A} → ok a ≡ ok b → a ≡ b
ok-injective h = cc

-- What a lookup can come to.
pub found-cases {ℓ} :
    {A : Type ℓ} (o : Outcome (Option A))
    → (o ≡ fault) ⊎ (o ≡ out_of_fuel) ⊎ (o ≡ ok none) ⊎ ((a : A) × (o ≡ ok (some a)))
found-cases fault = inl refl
found-cases out_of_fuel = inr (inl refl)
found-cases (ok none) = inr (inr (inl refl))
found-cases (ok (some a)) = inr (inr (inr (a, refl)))
