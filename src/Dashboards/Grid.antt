-- ===== src/Dashboards/Grid.antt =====
-- Coordinates on the grid of a breakpoint: `_parse_coordinates`, `_overlaps` and
-- `_first_available_coordinates` of backend/app/dashboards/editor.py.
pub mod Cells
pub mod Search
use queryops_ai.Prelude.{
  ℕ, zero, suc, String, ◌+◌, ◌-◌, Bool, true, false, not, ◌&&◌, ◌||◌, Option, none, some, List, [],
  ◌∷◌, ◌==◌, ltb, leb, any, all, contains, if◌then◌else◌,
}
use queryops_ai.Prelude.Int.{ℤ, pos, negsuc}
use queryops_ai.Prelude.Json
use queryops_ai.Prelude.Json.{Json, Fields}

-- A parsed position is not negative.
pub record Coordinates : Type 0 where
  pub x : ℕ
  pub y : ℕ
  pub w : ℕ
  pub h : ℕ

abbrev pub max_layout_y : ℕ
max_layout_y = 10000

abbrev pub coordinate_fields : List String
coordinate_fields = "x" ∷ "y" ∷ "w" ∷ "h" ∷ []

-- `set(value) == set(keys)`
pub keys_among : List String → Fields → Bool
keys_among keys Json.end = true
keys_among keys (Json.field k v fs) = contains k keys && keys_among keys fs

unfoldable pub has_exactly : List String → Fields → Bool
unfolding keys_among
has_exactly keys fs = keys_among keys fs && all (Json.has fs) keys

-- An int that is no bool.
abbrev pub int_of : Json → Option ℤ
int_of (Json.num n) = some n
int_of _ = none

-- The tests on the four numbers, of which a negative one never passes.
abbrev pub check_coordinates : ℕ → Bool → ℤ → ℤ → ℤ → ℤ → Option Coordinates
check_coordinates columns mobile (pos x) (pos y) (pos w) (pos h) =
    if ltb max_layout_y y
    then none
    else if w == 0 || h == 0
    then none
    else if ltb columns (x + w)
    then none
    else if mobile && (not (x == 0) || not (w == 1))
    then none
    else some (record { x = x; y = y; w = w; h = h })
check_coordinates columns mobile _ _ _ _ = none

abbrev pub coordinates_of : ℕ → Bool → Fields → Option Coordinates
coordinates_of columns mobile fs = elim (int_of (Json.get fs "x")) [
  | none ↦ none
  | some x ↦ elim (int_of (Json.get fs "y")) [
    | none ↦ none
    | some y ↦ elim (int_of (Json.get fs "w")) [
      | none ↦ none
      | some w ↦ elim (int_of (Json.get fs "h")) [
        | none ↦ none
        | some h ↦ check_coordinates columns mobile x y w h
      ]
    ]
  ]
]

-- `_parse_coordinates`
unfoldable pub parse_coordinates : ℕ → Bool → Json → Option Coordinates
parse_coordinates columns mobile (Json.obj fs) =
    if not (has_exactly coordinate_fields fs) then none else coordinates_of columns mobile fs
parse_coordinates columns mobile _ = none

-- `_overlaps`
unfoldable pub overlaps : Coordinates → Coordinates → Bool
overlaps first second = not (
    leb (first.x + first.w) second.x
    || leb (second.x + second.w) first.x
    || leb (first.y + first.h) second.y
    || leb (second.y + second.h) first.y)

module _ (width height : ℕ) (occupied : List Coordinates) where
  abbrev pub candidate : ℕ → ℕ → Coordinates
  candidate x y = record { x = x; y = y; w = width; h = height }

  -- The next `n` positions of the row, from `x` on.
  unfoldable pub search_row : ℕ → ℕ → ℕ → Option Coordinates
  search_row zero x y = none
  search_row (suc n) x y =
      let rest = search_row n (x + 1) y in
      if not (any (overlaps (candidate x y)) occupied) then some (candidate x y) else rest

  -- The next `n` rows, from `y` on, each with `places` positions.
  unfoldable pub search_rows : ℕ → ℕ → ℕ → Option Coordinates
  search_rows places zero y = none
  search_rows places (suc n) y = elim (search_row places 0 y) [
    | some c ↦ some c
    | none ↦ search_rows places n (y + 1)
  ]

-- `_first_available_coordinates`; `none` is the ValueError. `range(columns - width + 1)` is empty
-- where the width exceeds the columns.
unfoldable pub first_available_coordinates : ℕ → ℕ → ℕ → List Coordinates → Option Coordinates
first_available_coordinates columns width height occupied =
    search_rows width height occupied ((columns + 1) - width) (max_layout_y + 1) 0
