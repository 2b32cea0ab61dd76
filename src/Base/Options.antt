-- ===== src/Base/Options.antt =====
-- Chains of options: `none` is a panic, or the `None` that `?` returns at once.
use mathlib.Core.Bool.{Bool, true, false}
use mathlib.Core.Option.{Option, none, some, some-injective}
use mathlib.Core.Path.{◌≡◌}
use roxy.Base.Tests.{if◌then◌else◌}

module _ {ℓ κ} {A : Type ℓ} {B : Type κ} where
  infixl 5 ◌>>=◌
  abbrev pub ◌>>=◌ : Option A → (A → Option B) → Option B
  none >>= next = none
  some a >>= next = next a

-- A guarded `some` that is there holds what stands behind the guard.
pub some-of_if {ℓ} :
    {A : Type ℓ} (b : Bool) {x a : A} → (if b then some x else none) ≡ some a → x ≡ a
some-of_if true h = some-injective _ _ h
some-of_if false h = cc
