-- ===== src/Prelude/Lists.antt =====
-- Lists with Boolean predicates, as Python's `any`, `all`, `next`, `in` and comprehensions have
-- them, and lists measured by native numbers.
use Prim.Native.Nat.{ℕ, suc, ◌+◌}
use Prim.Native.String.{String}
use mathlib.Core.Path.{◌≡◌, refl, ap}
use text.Mathlib.TextEquality.{eq_iff}
use mathlib.Core.Logic.{inl, inr}
use mathlib.Core.Bool.{Bool, true, false, ◌&&◌, ◌||◌}
use mathlib.Core.Option.{Option, none, some}
use mathlib.Core.List.{List, [], ◌∷◌, ◌++◌}
use native.Mathlib.Omega.{arith}
use text.Mathlib.Text.{◌==◌ as str_eq}
use queryops_ai.Prelude.Tests.{if◌then◌else◌, ◌==◌, Bool-cases}

module _ {ℓ} {A : Type ℓ} where
  abbrev pub length : List A → ℕ
  length [] = 0
  length (x ∷ xs) = suc (length xs)

  -- `any(p(x) for x in xs)`
  abbrev pub any : (A → Bool) → List A → Bool
  any p [] = false
  any p (x ∷ xs) = p x || any p xs

  -- `all(p(x) for x in xs)`
  abbrev pub all : (A → Bool) → List A → Bool
  all p [] = true
  all p (x ∷ xs) = p x && all p xs

  -- `[x for x in xs if p(x)]`
  abbrev pub select : (A → Bool) → List A → List A
  select p [] = []
  select p (x ∷ xs) = let rest = select p xs in if p x then x ∷ rest else rest

  -- `next((x for x in xs if p(x)), None)`
  abbrev pub find_first : (A → Bool) → List A → Option A
  find_first p [] = none
  find_first p (x ∷ xs) = let rest = find_first p xs in if p x then some x else rest

  -- A predicate that holds of each item.
  abbrev pub All {κ} : (A → Type κ) → List A → Type κ
  All P [] = Unit
  All P (x ∷ xs) = P x × All P xs

  pub any-append : (p : A → Bool) (xs ys : List A) → any p (xs ++ ys) ≡ (any p xs || any p ys)
  any-append p [] ys = refl
  any-append p (x ∷ xs) ys = ground (arith, any-append p xs ys)

  pub find_first_sound :
      (p : A → Bool) (xs : List A) {x : A} → find_first p xs ≡ some x → p x ≡ true
  find_first_sound p [] h = cc
  find_first_sound p (y ∷ ys) h = elim (Bool-cases (p y)) [
    | inl hit ↦ cc (hit, rw hit at h)
    | inr miss ↦ find_first_sound p ys (rw miss at h)
  ]

  pub length-append : (xs ys : List A) → length (xs ++ ys) ≡ length xs + length ys
  length-append [] ys = omega arith
  length-append (x ∷ xs) ys = omega (arith, length-append xs ys)

-- `x in xs`, for texts.
abbrev pub contains : String → List String → Bool
contains a xs = any (str_eq a) xs

-- `x in xs`, for identifiers.
abbrev pub contains_id : ℕ → List ℕ → Bool
contains_id a xs = any (λ b. a == b) xs

-- Equal texts have equal tests.
pub test-eq : (p : String → Bool) (k x : String) → str_eq k x ≡ true → p k ≡ p x
test-eq p k x h = ap p ((eq_iff k x).0 h)

pub contains-select :
    (p : String → Bool) (k : String) (xs : List String)
    → contains k (select p xs) ≡ (contains k xs && p k)
contains-select p k [] = refl
contains-select p k (x ∷ xs) = ground (arith, test-eq p k x, contains-select p k xs)
