-- ===== src/Prelude/Outcome.antt =====
-- Results of fallible Go functions: a value, or an error of the type at hand.
use mathlib.Core.Path.{◌≡◌, refl}
use mathlib.Core.Logic.{◌⊎◌, inl, inr}
use mathlib.Core.Option.{Option, none, some}
use mathlib.Core.Bool.{Bool, true, false}

pub data Outcome {ℓ κ} (E : Type ℓ) (A : Type κ) : Type (ℓ ⊔ κ) where
  ok : A → Outcome E A
  err : E → Outcome E A

abbrev pub is_ok {ℓ κ} : {E : Type ℓ} {A : Type κ} → Outcome E A → Bool
is_ok (ok a) = true
is_ok (err e) = false

-- A search that can fail: found, absent or an error.
pub found_cases {ℓ κ} :
    {E : Type ℓ} {A : Type κ} (r : Outcome E (Option A))
    → ((a : A) × (r ≡ ok (some a))) ⊎ ((r ≡ ok none) ⊎ ((e : E) × (r ≡ err e)))
found_cases (ok (some a)) = inl (a, refl)
found_cases (ok none) = inr (inl refl)
found_cases (err e) = inr (inr (e, refl))
