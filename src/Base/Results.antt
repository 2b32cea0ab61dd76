-- ===== src/Base/Results.antt =====
-- Rust's `Result`, with the error type first, and the `?` operator.
use mathlib.Core.Path.{◌≡◌, refl}

pub data Result {ℓ} (E : Type 0) (A : Type ℓ) : Type ℓ where
  err : E → Result E A
  ok : A → Result E A

module _ {ℓ κ} {E : Type 0} {A : Type ℓ} {B : Type κ} where
  infixl 5 ◌>>=◌
  abbrev pub ◌>>=◌ : Result E A → (A → Result E B) → Result E B
  err e >>= next = err e
  ok a >>= next = next a

  -- A chain that ends well has passed through each of its steps.
  pub >>=-eq-ok :
      (step : Result E A) (next : A → Result E B) {b : B}
      → (step >>= next) ≡ ok b
      → (a : A) × (step ≡ ok a) × (next a ≡ ok b)
  >>=-eq-ok (err e) next done = cc
  >>=-eq-ok (ok a) next done = (a, refl, done)
