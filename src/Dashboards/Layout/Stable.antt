-- ===== src/Dashboards/Layout/Stable.antt =====
-- A dashboard that is laid out well is left as it is.
use queryops_ai.Prelude.{
  Bool, true, false, not, ◌&&◌, ◌||◌, some, List, [], ◌∷◌, ◌++◌, ==_refl, any, all, ◌≡◌, refl, sym,
  ap, ◌∙◌, arith,
}
use queryops_ai.Prelude.Uuid.{Uuid}
use queryops_ai.Dashboards.Grid.{Coordinates, overlaps}
use queryops_ai.Dashboards.Grid.Cells.{overlaps_comm}
use queryops_ai.Dashboards.Sizes.{Breakpoint}
use queryops_ai.Dashboards.Layout.{
  Layout, at, Card, Placed, values, is_placed, clashes, put_item, no_overlaps,
  parse_layout_for_card, keep_one, keep_existing, place_rest, normalize_breakpoint,
}

-- Each card has a layout that parses, in order.
abbrev pub Parsed : List Card → List Layout → Type 0
Parsed [] [] = Unit
Parsed (card ∷ cards) (l ∷ ls) =
    (parse_layout_for_card card.layout card.visualization_type ≡ some l) × Parsed cards ls
Parsed _ _ = ⊥

-- The cards with their own coordinates.
abbrev pub own_items : Breakpoint → List Card → List Layout → Placed
own_items b (card ∷ cards) (l ∷ ls) = (card.id, at b l) ∷ own_items b cards ls
own_items b _ _ = []

-- The keys are different.
abbrev pub distinct_keys : Placed → Bool
distinct_keys [] = true
distinct_keys (item ∷ items) = not (is_placed item.0 items) && distinct_keys items

put_item-new :
    (i : Uuid) (c : Coordinates) (placed : Placed)
    → is_placed i placed ≡ false
    → put_item i c placed ≡ placed ++ (i, c) ∷ []
unfolding put_item
put_item-new i c [] new = refl
put_item-new i c ((j, d) ∷ placed) new = ground (arith, put_item-new i c placed)

append_nil : (xs : Placed) → xs ++ [] ≡ xs
append_nil [] = refl
append_nil (x ∷ xs) = ap (λ rest. x ∷ rest) (append_nil xs)

append_one :
    (xs : Placed) (x : Uuid × Coordinates) (ys : Placed) → (xs ++ x ∷ []) ++ ys ≡ xs ++ x ∷ ys
append_one [] x ys = refl
append_one (z ∷ xs) x ys = ap (λ rest. z ∷ rest) (append_one xs x ys)

any-values-append :
    (p : Coordinates → Bool) (xs ys : Placed)
    → any p (values (xs ++ ys)) ≡ (any p (values xs) || any p (values ys))
any-values-append p [] ys = refl
any-values-append p (x ∷ xs) ys = ground (arith, any-values-append p xs ys)

is_placed-append :
    (i : Uuid) (xs ys : Placed) → is_placed i (xs ++ ys) ≡ (is_placed i xs || is_placed i ys)
is_placed-append i [] ys = refl
is_placed-append i (x ∷ xs) ys = ground (arith, is_placed-append i xs ys)

middle-free :
    (xs ys : Placed) (i : Uuid) (c : Coordinates)
    → no_overlaps (values (xs ++ (i, c) ∷ ys)) ≡ true
    → clashes c xs ≡ false
middle-free [] ys i c h = refl
middle-free ((j, d) ∷ xs) ys i c h = ground (
  arith,
  overlaps_comm c d,
  any-values-append (overlaps d) xs ((i, c) ∷ ys),
  middle-free xs ys i c,
)

middle-new :
    (xs ys : Placed) (i : Uuid) (c : Coordinates)
    → distinct_keys (xs ++ (i, c) ∷ ys) ≡ true
    → is_placed i xs ≡ false
middle-new [] ys i c h = refl
middle-new ((j, d) ∷ xs) ys i c h =
    ground (arith, is_placed-append j xs ((i, c) ∷ ys), middle-new xs ys i c)

module _ (b : Breakpoint) where
  keep_existing-own :
      (cards : List Card) (ls : List Layout) (placed : Placed)
      → Parsed cards ls
      → no_overlaps (values (placed ++ own_items b cards ls)) ≡ true
      → distinct_keys (placed ++ own_items b cards ls) ≡ true
      → keep_existing b cards placed ≡ placed ++ own_items b cards ls
  unfolding keep_existing
  keep_existing-own [] [] placed parsed apart new = sym (append_nil placed)
  keep_existing-own [] (l ∷ ls) placed parsed apart new = elim parsed [ ]
  keep_existing-own (card ∷ cards) [] placed parsed apart new = elim parsed [ ]
  keep_existing-own (card ∷ cards) (l ∷ ls) placed (one, parsed) apart new =
      let c = at b l in
      let rest = own_items b cards ls in
      let free = middle-free placed rest card.id c apart in
      let unseen = middle-new placed rest card.id c new in
      let step : keep_one b card placed (some l) ≡ placed ++ (card.id, c) ∷ [] =
        rw free (put_item-new card.id c placed unseen) in
      let joined = append_one placed (card.id, c) rest in
      ap (λ o. keep_existing b cards (keep_one b card placed o)) one
      ∙ ap (keep_existing b cards) step
      ∙ keep_existing-own cards ls (placed ++ (card.id, c) ∷ []) parsed
          (ap (λ items. no_overlaps (values items)) joined ∙ apart) (ap distinct_keys joined ∙ new)
      ∙ joined

  place_rest-placed :
      (cards : List Card) (placed : Placed)
      → all (λ (card : Card). is_placed card.id placed) cards ≡ true
      → place_rest b cards placed ≡ some placed
  unfolding place_rest
  place_rest-placed [] placed there = refl
  place_rest-placed (card ∷ cards) placed there =
      let one : is_placed card.id placed ≡ true = ground arith in
      rw (one, place_rest) (place_rest-placed cards placed (ground arith))

  own_items-placed :
      (cards : List Card) (ls : List Layout) (before : Placed)
      → Parsed cards ls
      → all (λ (card : Card). is_placed card.id (before ++ own_items b cards ls)) cards ≡ true
  own_items-placed [] [] before parsed = refl
  own_items-placed [] (l ∷ ls) before parsed = elim parsed [ ]
  own_items-placed (card ∷ cards) [] before parsed = elim parsed [ ]
  own_items-placed (card ∷ cards) (l ∷ ls) before (one, parsed) =
      let c = at b l in
      let rest = own_items b cards ls in
      let more : all (λ (k : Card). is_placed k.id ((before ++ (card.id, c) ∷ []) ++ rest)) cards
          ≡ true =
        own_items-placed cards ls (before ++ (card.id, c) ∷ []) parsed in
      let more' : all (λ (k : Card). is_placed k.id (before ++ (card.id, c) ∷ rest)) cards ≡ true =
        ap (λ items. all (λ (k : Card). is_placed k.id items) cards)
          (sym (append_one before (card.id, c) rest))
        ∙ more in
      ground (arith, is_placed-append card.id before ((card.id, c) ∷ rest), ==_refl card.id, more')

  -- Cards with different ids whose layouts parse and do not overlap keep their coordinates: the
  -- normalization moves nothing.
  pub normalize_breakpoint-own :
      (cards : List Card) (ls : List Layout)
      → Parsed cards ls
      → no_overlaps (values (own_items b cards ls)) ≡ true
      → distinct_keys (own_items b cards ls) ≡ true
      → normalize_breakpoint b cards ≡ some (own_items b cards ls)
  unfolding normalize_breakpoint
  normalize_breakpoint-own cards ls parsed apart new =
      ap (place_rest b cards) (keep_existing-own cards ls [] parsed apart new)
      ∙ place_rest-placed cards (own_items b cards ls) (own_items-placed cards ls [] parsed)
