-- ===== src/Prelude/Outcomes.antt =====
-- What a call of the program comes to: a value, an error value, or undefined behaviour.
use mathlib.Core.Path.{◌≡◌}

-- `fault` stands for an operation outside its safety contract, such as a read past a trusted
-- window; no safe call of the program may come to it.
pub data Outcome {ℓ κ} (E : Type κ) (A : Type ℓ) : Type (ℓ ⊔ κ) where
  ok : A → Outcome E A
  err : E → Outcome E A
  fault : Outcome E A

module _ {ℓ κ μ} {E : Type κ} {A : Type ℓ} {B : Type μ} where
  -- The `?` of the program.
  abbrev pub bind : Outcome E A → (A → Outcome E B) → Outcome E B
  bind (ok a) f = f a
  bind (err e) f = err e
  bind fault f = fault

module _ {ℓ κ} {E : Type κ} {A : Type ℓ} where
  abbrev pub IsOk : Outcome E A → Type (ℓ ⊔ κ)
  IsOk r = (a : A) × (r ≡ ok a)

  abbrev pub IsErr : Outcome E A → Type (ℓ ⊔ κ)
  IsErr r = (e : E) × (r ≡ err e)
