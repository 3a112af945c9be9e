-- ===== src/Prelude/Texts.antt =====
-- Python's `str` as the list of its code points, for code that looks into a text.
use Prim.Native.Nat.{ℕ}
use Prim.Native.Char.{code}
use Prim.Native.String.{String}
use mathlib.Core.Option.{Option, none, some}
use mathlib.Core.Path.{◌≡◌, refl}
use mathlib.Core.List.{List, [], ◌∷◌}

abbrev pub Text : Type 0
Text = List ℕ

abbrev pub codes : String → Text
codes String.[] = []
codes (String.◌∷◌ c s) = code c ∷ codes s

-- A value that may be missing, or a step that may raise.
infixl 5 ◌>>=◌
abbrev pub ◌>>=◌ {ℓ κ} : {A : Type ℓ} {B : Type κ} → Option A → (A → Option B) → Option B
none >>= f = none
some a >>= f = f a

pub went_through {ℓ κ} :
    {A : Type ℓ} {B : Type κ} {f : A → Option B} {y : B} (r : Option A)
    → (r >>= f) ≡ some y
    → (x : A) × (r ≡ some x) × (f x ≡ some y)
went_through none h = cc
went_through (some x) h = (x, refl, h)
