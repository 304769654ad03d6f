-- ===== src/Base/Exec.antt =====
-- A run of C code: a value, or a fault where the code leaves defined behaviour (a NULL
-- dereference, a read outside the buffer, a freed object).
use mathlib.Core.Path.{◌≡◌, refl}
use mathlib.Core.Option.{Option, none, some}
use mathlib.Core.Logic.{◌⊎◌, inl, inr}

pub data Run {ℓ} (Value : Type ℓ) : Type ℓ where
  fault : Run Value
  ok : Value → Run Value

-- A dereference: `none` is the NULL pointer, or an index out of range.
abbrev pub deref {ℓ} : {A : Type ℓ} → Option A → Run A
deref none = fault
deref (some a) = ok a

-- The rest of the code runs on the value.
abbrev pub ◌>>=◌ {ℓ κ} : {X : Type ℓ} {Y : Type κ} → Run X → (X → Run Y) → Run Y
fault >>= rest = fault
ok x >>= rest = rest x

infixl 5 ◌>>=◌
-- To split on how a run ends.
pub Run-cases {ℓ} : {A : Type ℓ} (r : Run A) → (r ≡ fault) ⊎ ((a : A) × (r ≡ ok a))
Run-cases fault = inl refl
Run-cases (ok a) = inr (a, refl)

-- A run that cannot fault returns.
pub Run-total {ℓ} : {A : Type ℓ} (r : Run A) → (r ≡ fault → ⊥) → (a : A) × (r ≡ ok a)
Run-total (ok a) h = (a, refl)
Run-total fault h = absurd (h refl)
