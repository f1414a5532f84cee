-- ===== src/Common/Memory.antt =====
-- Addresses, and memory that holds one value at each of them.
use Prim.Native.Nat.{ℕ}
use mathlib.Core.Path.{◌≡◌, refl}
use mathlib.Core.Logic.{◌⊎◌, inl, inr}
use vaccel_google_test.Common.Tests.{◌==◌, if◌then◌else◌}

abbrev pub Ptr : Type 0
Ptr = ℕ

abbrev pub null : Ptr
null = 0

module _ {ℓ} {A : Type ℓ} where
  -- `*p = v`
  abbrev pub update : (Ptr → A) → Ptr → A → Ptr → A
  update f p v q = if p == q then v else f q

-- What an access outside an array, or through NULL, leads to.
pub data Outcome {ℓ} (A : Type ℓ) : Type ℓ where
  ok : A → Outcome A
  fault : Outcome A

infixl 5 ◌>>=◌
abbrev pub ◌>>=◌ {ℓ κ} : {A : Type ℓ} {B : Type κ} → Outcome A → (A → Outcome B) → Outcome B
ok a >>= f = f a
fault >>= f = fault

-- To split on an outcome and keep the equation.
pub Outcome-cases {ℓ} : {A : Type ℓ} (o : Outcome A) → (o ≡ fault) ⊎ ((a : A) × (o ≡ ok a))
Outcome-cases fault = inl refl
Outcome-cases (ok a) = inr (a, refl)
