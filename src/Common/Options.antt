-- ===== src/Common/Options.antt =====
-- Chains of fallible steps that carry no error value (`std::optional`).
use mathlib.Core.Option.{Option, none, some}
use mathlib.Core.Path.{◌≡◌, refl}

infixl 5 ◌>>=◌
abbrev pub ◌>>=◌ {ℓ κ} : {A : Type ℓ} {B : Type κ} → Option A → (A → Option B) → Option B
none >>= f = none
some a >>= f = f a

-- Both steps of a chain that gives a value gave one.
module _ {ℓ κ} {A : Type ℓ} {B : Type κ} where
  pub >>=-eq-some :
      (first : Option A) (next : A → Option B) {b : B}
      → first >>= next ≡ some b
      → (a : A) × (first ≡ some a) × (next a ≡ some b)
  >>=-eq-some (some a) next h = (a, refl, h)
  >>=-eq-some none next h = absurd (cc)
