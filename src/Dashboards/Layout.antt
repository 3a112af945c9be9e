-- ===== src/Dashboards/Layout.antt =====
-- The layouts of the cards of a dashboard: `parse_layout_for_card`, `layouts_do_not_overlap` and
-- `normalize_card_layouts` of backend/app/dashboards/editor.py.
pub mod Items
pub mod Placement
pub mod Stable
use queryops_ai.Prelude.{
  ℕ, String, Bool, true, false, not, ◌&&◌, ◌||◌, Option, none, some, List, [], ◌∷◌, map, ◌==◌, ltb,
  leb, any, all, if◌then◌else◌,
}
use queryops_ai.Prelude.Uuid.{Uuid}
use queryops_ai.Prelude.Sorting.{sort_by}
use queryops_ai.Prelude.Int.{pos}
use queryops_ai.Prelude.Json
use queryops_ai.Prelude.Json.{Json, Fields}
use queryops_ai.Dashboards.Grid.{
  Coordinates, has_exactly, parse_coordinates, overlaps, first_available_coordinates,
}
use queryops_ai.Dashboards.Sizes.{
  VisualizationType, Breakpoint, breakpoint_columns, is_mobile, default_size, size_policy, has_size,
}

pub record Layout : Type 0 where
  pub desktop : Coordinates
  pub tablet : Coordinates
  pub mobile : Coordinates

-- `layout[breakpoint]`
abbrev pub at : Breakpoint → Layout → Coordinates
at Breakpoint.desktop l = l.desktop
at Breakpoint.tablet l = l.tablet
at Breakpoint.mobile l = l.mobile

-- A card, with what `visualization_type_for_card` says of it.
pub record Card : Type 0 where
  pub id : Uuid
  pub position : ℕ
  pub created_at : ℕ
  pub visualization_type : VisualizationType
  pub layout : Json

abbrev pub layout_fields : List String
layout_fields = "version" ∷ "desktop" ∷ "tablet" ∷ "mobile" ∷ []

-- `isinstance(version, bool) or version != 1`, negated
abbrev pub is_version_1 : Json → Bool
is_version_1 (Json.num (pos n)) = n == 1
is_version_1 _ = false

-- The coordinates of one breakpoint, of an allowed size.
unfoldable pub parse_at : VisualizationType → Breakpoint → Json → Option Coordinates
parse_at t b value = elim (parse_coordinates (breakpoint_columns b) (is_mobile b) value) [
  | none ↦ none
  | some c ↦ if not (has_size (size_policy t b) c.w c.h) then none else some c
]

abbrev pub layout_of : VisualizationType → Fields → Option Layout
layout_of t fs = elim (parse_at t Breakpoint.desktop (Json.get fs "desktop")) [
  | none ↦ none
  | some d ↦ elim (parse_at t Breakpoint.tablet (Json.get fs "tablet")) [
    | none ↦ none
    | some tb ↦ elim (parse_at t Breakpoint.mobile (Json.get fs "mobile")) [
      | none ↦ none
      | some m ↦ some (record { desktop = d; tablet = tb; mobile = m })
    ]
  ]
]

unfoldable pub parse_layout_for_card : Json → VisualizationType → Option Layout
parse_layout_for_card (Json.obj fs) t =
    if not (has_exactly layout_fields fs) || not (is_version_1 (Json.get fs "version"))
    then none
    else layout_of t fs
parse_layout_for_card _ t = none

-- No two of the items overlap.
abbrev pub no_overlaps : List Coordinates → Bool
no_overlaps [] = true
no_overlaps (c ∷ cs) = not (any (overlaps c) cs) && no_overlaps cs

unfoldable pub layouts_do_not_overlap : List Layout → Bool
layouts_do_not_overlap layouts =
    no_overlaps (map (at Breakpoint.desktop) layouts)
    && no_overlaps (map (at Breakpoint.tablet) layouts)
    && no_overlaps (map (at Breakpoint.mobile) layouts)

-- The dict `placed`, in the order of its keys.
abbrev pub Placed : Type 0
Placed = List (Uuid × Coordinates)

abbrev pub is_placed : Uuid → Placed → Bool
is_placed i placed = any (λ (item : Uuid × Coordinates). item.0 == i) placed

-- `placed.values()`
abbrev pub values : Placed → List Coordinates
values [] = []
values (item ∷ items) = item.1 ∷ values items

abbrev pub clashes : Coordinates → Placed → Bool
clashes c placed = any (overlaps c) (values placed)

-- `placed[i] = c`
unfoldable pub put_item : Uuid → Coordinates → Placed → Placed
put_item i c [] = (i, c) ∷ []
put_item i c (item ∷ items) =
    let rest = put_item i c items in if item.0 == i then (i, c) ∷ items else item ∷ rest

module _ (b : Breakpoint) where
  -- The first loop: existing layouts stay where they do not overlap an earlier one.
  abbrev pub keep_one : Card → Placed → Option Layout → Placed
  keep_one card placed none = placed
  keep_one card placed (some l) =
      if not (clashes (at b l) placed) then put_item card.id (at b l) placed else placed

  unfoldable pub keep_existing : List Card → Placed → Placed
  keep_existing [] placed = placed
  keep_existing (card ∷ cards) placed =
      keep_existing cards
        (keep_one card placed (parse_layout_for_card card.layout card.visualization_type))

  -- The second loop: every other card gets the first free place of its default size.
  abbrev pub place_default : Card → Placed → Option Placed
  place_default card placed =
      let (width, height) = default_size card.visualization_type b in
      elim (first_available_coordinates (breakpoint_columns b) width height (values placed)) [
        | none ↦ none
        | some c ↦ some (put_item card.id c placed)
      ]

  abbrev pub place_one : Card → Placed → Option Placed
  place_one card placed =
      if is_placed card.id placed then some placed else place_default card placed

  unfoldable pub place_rest : List Card → Placed → Option Placed
  place_rest [] placed = some placed
  place_rest (card ∷ cards) placed = elim (place_one card placed) [
    | none ↦ none
    | some more ↦ place_rest cards more
  ]

  -- One round of the loop over the breakpoints; `none` is the ValueError.
  unfoldable pub normalize_breakpoint : List Card → Option Placed
  normalize_breakpoint ordered = place_rest ordered (keep_existing ordered [])

-- By position, age and id.
abbrev pub card_le : Card → Card → Bool
card_le a b =
    if ltb a.position b.position
    then true
    else if ltb b.position a.position
    then false
    else if ltb a.created_at b.created_at
    then true
    else if ltb b.created_at a.created_at
    then false
    else leb a.id b.id

pub record Normalized : Type 0 where
  pub desktop : Placed
  pub tablet : Placed
  pub mobile : Placed

unfoldable pub normalize_card_layouts : List Card → Option Normalized
normalize_card_layouts cards =
    let ordered = sort_by card_le cards in
    elim (normalize_breakpoint Breakpoint.desktop ordered) [
      | none ↦ none
      | some d ↦ elim (normalize_breakpoint Breakpoint.tablet ordered) [
        | none ↦ none
        | some tb ↦ elim (normalize_breakpoint Breakpoint.mobile ordered) [
          | none ↦ none
          | some m ↦ some (record { desktop = d; tablet = tb; mobile = m })
        ]
      ]
    ]
