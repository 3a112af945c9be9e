-- ===== src/Prelude/Results.antt =====
-- Python code that may raise: the value, or the exception.
use mathlib.Core.Path.{◌≡◌, refl}
use mathlib.Core.Bool.{Bool, true, false}

pub data Result {ℓ κ} (E : Type ℓ) (A : Type κ) : Type (ℓ ⊔ κ) where
  ok : A → Result E A
  err : E → Result E A

infixl 5 ◌>>=◌ ◌>>◌
abbrev pub ◌>>=◌ {ℓ} : {E A B : Type ℓ} → Result E A → (A → Result E B) → Result E B
ok a >>= f = f a
err e >>= f = err e

abbrev pub ◌>>◌ {ℓ} : {E A B : Type ℓ} → Result E A → Result E B → Result E B
m >> k = m >>= λ _. k

-- `if not test: raise e`
abbrev pub require : {E : Type 0} → Bool → E → Result E (Unit {0})
require true e = ok tt
require false e = err e

module _ {ℓ} {E A B : Type ℓ} (next : A → Result E B) where
  -- A chain that gives a value went through one in each of its steps.
  pub went_through :
      (r : Result E A) (y : B) → ok y ≡ (r >>= next) → (x : A) × (r ≡ ok x) × (ok y ≡ next x)
  went_through (err _) y h = cc
  went_through (ok x) y h = (x, refl, h)
