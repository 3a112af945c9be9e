-- ===== src/Prelude/Sorting.antt =====
-- Python's `sorted` by a comparison, and `set` or `dict.fromkeys` as a list without repetition.
use Prim.Native.Nat.{◌≤◌, ◌<◌}
use Prim.Native.String.{String, compare}
use mathlib.Core.Path.{◌≡◌, refl, ◌∙◌}
use mathlib.Core.Bool.{Bool, true, false, ◌||◌}
use mathlib.Core.List.{List, [], ◌∷◌}
use native.Mathlib.Omega.{arith}
use text.Mathlib.Text.{is_le, ◌==◌ as str_eq}
use text.Mathlib.TextEquality.{eq_iff}
use text.Mathlib.TextPositions.{eq_refl}
use queryops_ai.Prelude.Tests.{if◌then◌else◌}
use queryops_ai.Prelude.Lists.{any, all, contains, length, test-eq}

-- The order of Python's `str`, by code points.
abbrev pub str_le : String → String → Bool
str_le a b = is_le (compare a b)

module _ {ℓ} {A : Type ℓ} (le : A → A → Bool) where
  unfoldable pub insert_by : A → List A → List A
  insert_by x [] = x ∷ []
  insert_by x (y ∷ ys) = let rest = insert_by x ys in if le x y then x ∷ y ∷ ys else y ∷ rest

  -- A stable sort, as Python's is.
  unfoldable pub sort_by : List A → List A
  unfolding insert_by
  sort_by [] = []
  sort_by (x ∷ xs) = insert_by x (sort_by xs)

  -- Each item is at most every later one.
  abbrev pub IsSorted : List A → Type 0
  IsSorted [] = Unit
  IsSorted (x ∷ xs) = (all (le x) xs ≡ true) × IsSorted xs

  any-insert_by : (p : A → Bool) (x : A) (xs : List A) → any p (insert_by x xs) ≡ (p x || any p xs)
  unfolding insert_by
  any-insert_by p x [] = refl
  any-insert_by p x (y ∷ ys) = ground (arith, any-insert_by p x ys)

  -- Sorting keeps what any item satisfies.
  pub any-sort_by : (p : A → Bool) (xs : List A) → any p (sort_by xs) ≡ any p xs
  unfolding sort_by
  any-sort_by p [] = refl
  any-sort_by p (x ∷ xs) = ground (arith, any-insert_by p x (sort_by xs), any-sort_by p xs)

-- The list without `a`.
pub without : String → List String → List String
without a [] = []
without a (b ∷ bs) = let rest = without a bs in if str_eq a b then rest else b ∷ rest

-- The first occurrence of each text.
unfoldable pub distinct : List String → List String
unfolding without
distinct [] = []
distinct (x ∷ xs) = x ∷ without x (distinct xs)

contains-without :
    (k a : String) (xs : List String)
    → contains k (without a xs) ≡ (if str_eq a k then false else contains k xs)
unfolding without
contains-without k a [] = ground arith
contains-without k a (x ∷ xs) =
    ground (arith, eq_iff a k, eq_iff k x, eq_iff a x, eq_iff k a, contains-without k a xs)

-- As a set, nothing is lost.
pub contains-distinct : (k : String) (xs : List String) → contains k (distinct xs) ≡ contains k xs
unfolding distinct
contains-distinct k [] = refl
contains-distinct k (x ∷ xs) =
    ground
      (arith, eq_iff k x, eq_iff x k, contains-without k x (distinct xs), contains-distinct k xs)

length-without_le : (a : String) (xs : List String) → length (without a xs) ≤ length xs
unfolding without
length-without_le a [] = omega arith
length-without_le a (x ∷ xs) = ground (arith, length-without_le a xs)

length-without :
    (a : String) (xs : List String) → contains a xs ≡ true → length (without a xs) < length xs
unfolding without
length-without a [] h = cc
length-without a (x ∷ xs) h = ground (arith, length-without_le a xs, length-without a xs)

-- No text stands twice.
abbrev pub NoRepeats : List String → Type 0
NoRepeats [] = Unit
NoRepeats (x ∷ xs) = (contains x xs ≡ false) × NoRepeats xs

-- A list without repetitions is no longer than one with all its texts.
pub length-NoRepeats :
    (xs ys : List String)
    → NoRepeats xs
    → ((x : String) → contains x xs ≡ true → contains x ys ≡ true)
    → length xs ≤ length ys
length-NoRepeats [] ys h within = omega arith
length-NoRepeats (x ∷ xs) ys (fresh, h) within =
    let there = within x (ground (arith, eq_refl x)) in
    omega (
      arith,
      length-without x ys there,
      length-NoRepeats xs (without x ys) h (λ k held.
          contains-without k x ys
          ∙ ground (
            arith,
            within k (ground (arith, held)),
            fresh,
            held,
            test-eq (λ t. contains t xs) x k,
          )),
    )

without-NoRepeats : (a : String) (xs : List String) → NoRepeats xs → NoRepeats (without a xs)
unfolding without
without-NoRepeats a [] h = tt
without-NoRepeats a (x ∷ xs) (fresh, h) =
    ground (arith, contains-without x a xs, without-NoRepeats a xs h)

pub distinct-NoRepeats : (xs : List String) → NoRepeats (distinct xs)
unfolding distinct
distinct-NoRepeats [] = tt
distinct-NoRepeats (x ∷ xs) = (
  ground (arith, contains-without x x (distinct xs), eq_refl x),
  without-NoRepeats x (distinct xs) (distinct-NoRepeats xs),
)

-- Sorting keeps the absence of repetition.
insert_by-NoRepeats :
    (x : String) (xs : List String)
    → contains x xs ≡ false
    → NoRepeats xs
    → NoRepeats (insert_by str_le x xs)
unfolding insert_by
insert_by-NoRepeats x [] h u = (refl, tt)
insert_by-NoRepeats x (y ∷ ys) h (fresh, u) = ground (
  arith,
  any-insert_by str_le (str_eq y) x ys,
  eq_iff x y,
  eq_iff y x,
  insert_by-NoRepeats x ys (ground arith) u,
)

pub sort_by-NoRepeats : (xs : List String) → NoRepeats xs → NoRepeats (sort_by str_le xs)
unfolding sort_by
sort_by-NoRepeats [] h = tt
sort_by-NoRepeats (x ∷ xs) (fresh, h) =
    insert_by-NoRepeats x (sort_by str_le xs) (any-sort_by str_le (str_eq x) xs ∙ fresh)
      (sort_by-NoRepeats xs h)
