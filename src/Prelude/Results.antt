-- ===== src/Prelude/Results.antt =====
-- A value or an error: Go's pair of a result and an error, the error as its message.
use mathlib.Core.Path.{◌≡◌, refl}
use congee.Prelude.Strings.{Text}

pub data Result {ℓ} (Value : Type ℓ) : Type ℓ where
  success : Value → Result Value
  failure : Text → Result Value

module _ {ℓ κ} {A : Type ℓ} {B : Type κ} where
  infixl 5 ◌>>=◌
  abbrev pub ◌>>=◌ : Result A → (A → Result B) → Result B
  success value >>= next = next value
  failure message >>= next = failure message

  -- Where a chain succeeds, so does its first step, and the rest on what that gave.
  pub >>=-success :
      (first : Result A) (next : A → Result B) {last : B}
      → (first >>= next) ≡ success last
      → (value : A) × (first ≡ success value) × (next value ≡ success last)
  >>=-success (success value) next h = (value, refl, h)
  >>=-success (failure message) next h = cc
