-- ===== src/Dashboards/Layout/Placement.antt =====
-- What `normalize_card_layouts` gives: every card, inside the grid, and no overlap.
use queryops_ai.Prelude.{
  true, false, ◌||◌, Option, none, some, List, [], ◌∷◌, ◌==◌, any, all, ◌≡◌, refl, sym, ap, ◌∙◌,
  ◌⊎◌, inl, inr, arith, Bool-cases, Option-cases, ==_iff,
}
use queryops_ai.Prelude.Uuid.{Uuid}
use queryops_ai.Prelude.Sorting.{sort_by, any-sort_by}
use mathlib.Core.Option.{some-injective}
use queryops_ai.Prelude.Json.{Json}
use queryops_ai.Dashboards.Grid.{Coordinates, parse_coordinates, first_available_coordinates}
use queryops_ai.Dashboards.Grid.Search.{first_available_coordinates_sound}
use queryops_ai.Dashboards.Sizes.{Breakpoint, VisualizationType, breakpoint_columns, default_size}
use queryops_ai.Dashboards.Layout.{
  Layout, at, Card, Placed, values, is_placed, clashes, put_item, no_overlaps,
  parse_layout_for_card, parse_at, keep_one, keep_existing, place_one, place_rest,
  normalize_breakpoint, Normalized, normalize_card_layouts, card_le,
}
use queryops_ai.Dashboards.Layout.Items.{
  put_item-no_overlaps, is_placed-put_item, all-put_item, on_grid, IsTidy, parse_layout_for_card-at,
}

module _ (b : Breakpoint) where
  IsTidy-put_item :
      (i : Uuid) (c : Coordinates) (placed : Placed)
      → clashes c placed ≡ false
      → on_grid b c ≡ true
      → IsTidy b placed
      → IsTidy b (put_item i c placed)
  IsTidy-put_item i c placed free fits tidy = record {
    apart = put_item-no_overlaps c i placed free tidy.apart;
    inside = all-put_item (on_grid b) i c placed fits tidy.inside;
  }

  -- What is parsed lies on the grid.
  parse_at-on_grid :
      (t : VisualizationType) (value : Json) (c : Coordinates)
      → parse_at t b value ≡ some c
      → on_grid b c ≡ true
  unfolding parse_at parse_coordinates
  parse_at-on_grid t value c h = ground arith

  parse_layout_for_card-on_grid :
      (t : VisualizationType) (value : Json) (l : Layout)
      → parse_layout_for_card value t ≡ some l
      → on_grid b (at b l) ≡ true
  parse_layout_for_card-on_grid t value l h =
      let (v, parsed) = parse_layout_for_card-at t value l h b in
      parse_at-on_grid t v (at b l) parsed

  keep_one-IsTidy :
      (card : Card) (placed : Placed) (parsed : Option Layout)
      → parse_layout_for_card card.layout card.visualization_type ≡ parsed
      → IsTidy b placed
      → IsTidy b (keep_one b card placed parsed)
  keep_one-IsTidy card placed none e tidy = tidy
  keep_one-IsTidy card placed (some l) e tidy = elim (Bool-cases (clashes (at b l) placed)) [
    | inl clash ↦ rw clash tidy
    | inr free ↦ rw free (
        IsTidy-put_item card.id (at b l) placed free
          (parse_layout_for_card-on_grid card.visualization_type card.layout l e) tidy)
  ]

  keep_existing-IsTidy :
      (cards : List Card) (placed : Placed)
      → IsTidy b placed
      → IsTidy b (keep_existing b cards placed)
  unfolding keep_existing
  keep_existing-IsTidy [] placed tidy = tidy
  keep_existing-IsTidy (card ∷ cards) placed tidy =
      let parsed = parse_layout_for_card card.layout card.visualization_type in
      keep_existing-IsTidy cards (keep_one b card placed parsed)
        (keep_one-IsTidy card placed parsed refl tidy)

  -- What placing one more card comes to: it was there, or it gets a free place on the grid.
  place_one-cases :
      (card : Card) (placed more : Placed)
      → place_one b card placed ≡ some more
      → ((more ≡ placed) × (is_placed card.id placed ≡ true))
        ⊎ ((c : Coordinates) × (more ≡ put_item card.id c placed)
            × (clashes c placed ≡ false)
            × (on_grid b c ≡ true))
  place_one-cases card placed more h = elim (Bool-cases (is_placed card.id placed)) [
    | inl there ↦ inl (sym (some-injective placed more (rw there at h)), there)
    | inr missing ↦
        let size = default_size card.visualization_type b in
        elim (Option-cases
          (first_available_coordinates (breakpoint_columns b) size.0 size.1 (values placed))) [
            | inl full ↦ ground (arith, missing, full)
            | inr (c, found) ↦
                let (_, _, fits, low, free, _) =
                  first_available_coordinates_sound size.0 size.1 (values placed)
                    (breakpoint_columns b) c found in
                inr (c, ground (arith, missing, found), free, ground (arith, fits, low))
          ]
  ]

  place_one-IsTidy :
      (card : Card) (placed more : Placed)
      → place_one b card placed ≡ some more
      → IsTidy b placed
      → IsTidy b more
  place_one-IsTidy card placed more h tidy = elim (place_one-cases card placed more h) [
    | inl (same, _) ↦ rw same tidy
    | inr (c, placed_there, free, fits) ↦
        rw placed_there (IsTidy-put_item card.id c placed free fits tidy)
  ]

  place_one-is_placed :
      (card : Card) (placed more : Placed) (i : Uuid)
      → place_one b card placed ≡ some more
      → is_placed i more ≡ ((card.id == i) || is_placed i placed)
  place_one-is_placed card placed more i h = elim (place_one-cases card placed more h) [
    | inl (same, there) ↦ elim (Bool-cases (card.id == i)) [
      | inl e ↦ rw (same, e) (ap (λ j. is_placed j placed) (sym ((==_iff card.id i).0 e)) ∙ there)
      | inr e ↦ rw (same, e) refl
    ]
    | inr (c, placed_there, _, _) ↦ rw placed_there (is_placed-put_item i card.id c placed)
  ]

  place_rest_cons :
      (card : Card) (cards : List Card) (placed more : Placed)
      → place_one b card placed ≡ some more
      → place_rest b (card ∷ cards) placed ≡ place_rest b cards more
  unfolding place_rest
  place_rest_cons card cards placed more one = rw (one, place_rest) refl

  place_rest-IsTidy :
      (cards : List Card) (placed final : Placed)
      → place_rest b cards placed ≡ some final
      → IsTidy b placed
      → IsTidy b final
  unfolding place_rest
  place_rest-IsTidy [] placed final h tidy = rw (sym (some-injective placed final h)) tidy
  place_rest-IsTidy (card ∷ cards) placed final h tidy =
      elim (Option-cases (place_one b card placed)) [
        | inl full ↦ ground (arith, full)
        | inr (more, one) ↦
            place_rest-IsTidy cards more final
              (sym (place_rest_cons card cards placed more one) ∙ h)
              (place_one-IsTidy card placed more one tidy)
      ]

  place_rest-is_placed :
      (cards : List Card) (placed final : Placed) (i : Uuid)
      → place_rest b cards placed ≡ some final
      → is_placed i final ≡ (any (λ (card : Card). card.id == i) cards || is_placed i placed)
  unfolding place_rest
  place_rest-is_placed [] placed final i h = ap (is_placed i) (sym (some-injective placed final h))
  place_rest-is_placed (card ∷ cards) placed final i h =
      elim (Option-cases (place_one b card placed)) [
        | inl full ↦ ground (arith, full)
        | inr (more, one) ↦ ground (
          arith,
          place_rest-is_placed cards more final i
              (sym (place_rest_cons card cards placed more one) ∙ h),
          place_one-is_placed card placed more i one,
        )
      ]

  normalize_breakpoint_sound :
      (cards : List Card) (placed : Placed)
      → normalize_breakpoint b cards ≡ some placed
      → (no_overlaps (values placed) ≡ true)
        × (all (on_grid b) (values placed) ≡ true)
        × ((i : Uuid)
            → any (λ (card : Card). card.id == i) cards ≡ true
            → is_placed i placed ≡ true)
  unfolding normalize_breakpoint
  normalize_breakpoint_sound cards placed h =
      let start : IsTidy b [] = record { apart = refl; inside = refl } in
      let tidy =
        place_rest-IsTidy cards (keep_existing b cards []) placed h
          (keep_existing-IsTidy cards [] start) in
      (
        tidy.apart,
        tidy.inside,
        λ i there.
            place_rest-is_placed cards (keep_existing b cards []) placed i h
            ∙ ground (arith, there),
      )

-- `normalized[…][breakpoint]`
abbrev pub round : Breakpoint → Normalized → Placed
round Breakpoint.desktop n = n.desktop
round Breakpoint.tablet n = n.tablet
round Breakpoint.mobile n = n.mobile

normalize_card_layouts-round :
    (cards : List Card) (n : Normalized)
    → normalize_card_layouts cards ≡ some n
    → (b : Breakpoint) → normalize_breakpoint b (sort_by card_le cards) ≡ some (round b n)
unfolding normalize_card_layouts
normalize_card_layouts-round cards n h Breakpoint.desktop = ground arith
normalize_card_layouts-round cards n h Breakpoint.tablet = ground arith
normalize_card_layouts-round cards n h Breakpoint.mobile = ground arith

-- Whatever layouts the cards had, the normalized ones are good at each breakpoint, if there are any:
-- no two items overlap, each lies within the columns and the rows, and every card is placed.
pub normalize_card_layouts_sound :
    (cards : List Card) (n : Normalized)
    → normalize_card_layouts cards ≡ some n
    → (b : Breakpoint)
    → (no_overlaps (values (round b n)) ≡ true)
      × (all (on_grid b) (values (round b n)) ≡ true)
      × ((i : Uuid)
          → any (λ (card : Card). card.id == i) cards ≡ true
          → is_placed i (round b n) ≡ true)
normalize_card_layouts_sound cards n h b =
    let (apart, inside, placed) =
      normalize_breakpoint_sound b (sort_by card_le cards) (round b n)
        (normalize_card_layouts-round cards n h b) in
    (
      apart,
      inside,
      λ i there. placed i (any-sort_by card_le (λ (card : Card). card.id == i) cards ∙ there),
    )
