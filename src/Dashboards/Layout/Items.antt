-- ===== src/Dashboards/Layout/Items.antt =====
-- What `placed[i] = c` does to the items, and what is parsed.
use queryops_ai.Prelude.{
  ◌+◌, Bool, true, false, ◌&&◌, ◌||◌, some, [], ◌∷◌, ◌==◌, all, leb, ◌≡◌, refl, arith,
}
use queryops_ai.Prelude.Uuid.{Uuid}
use queryops_ai.Prelude.Json
use queryops_ai.Prelude.Json.{Json}
use queryops_ai.Dashboards.Grid.{Coordinates, max_layout_y, overlaps}
use queryops_ai.Dashboards.Grid.Cells.{overlaps_comm}
use queryops_ai.Dashboards.Sizes.{Breakpoint, VisualizationType, breakpoint_columns}
use queryops_ai.Dashboards.Layout.{
  Layout, at, Placed, values, is_placed, clashes, put_item, no_overlaps, parse_layout_for_card,
  parse_at,
}

pub clashes-put_item :
    (d c : Coordinates) (i : Uuid) (items : Placed)
    → overlaps d c ≡ false
    → clashes d items ≡ false
    → clashes d (put_item i c items) ≡ false
unfolding put_item
clashes-put_item d c i [] apart free = ground arith
clashes-put_item d c i (item ∷ items) apart free =
    ground (arith, clashes-put_item d c i items apart)

pub put_item-no_overlaps :
    (c : Coordinates) (i : Uuid) (items : Placed)
    → clashes c items ≡ false
    → no_overlaps (values items) ≡ true
    → no_overlaps (values (put_item i c items)) ≡ true
unfolding put_item
put_item-no_overlaps c i [] free apart = refl
put_item-no_overlaps c i ((j, d) ∷ items) free apart =
    ground (arith, overlaps_comm d c, clashes-put_item d c i items, put_item-no_overlaps c i items)

pub is_placed-put_item :
    (j i : Uuid) (c : Coordinates) (items : Placed)
    → is_placed j (put_item i c items) ≡ ((i == j) || is_placed j items)
unfolding put_item
is_placed-put_item j i c [] = refl
is_placed-put_item j i c ((k, d) ∷ items) = ground (arith, is_placed-put_item j i c items)

pub all-put_item :
    (p : Coordinates → Bool) (i : Uuid) (c : Coordinates) (items : Placed)
    → p c ≡ true
    → all p (values items) ≡ true
    → all p (values (put_item i c items)) ≡ true
unfolding put_item
all-put_item p i c [] hc h = ground arith
all-put_item p i c ((k, d) ∷ items) hc h = ground (arith, all-put_item p i c items hc)

-- The item lies on the grid of the breakpoint.
abbrev pub on_grid : Breakpoint → Coordinates → Bool
on_grid b c = leb (c.x + c.w) (breakpoint_columns b) && leb c.y max_layout_y

-- What holds of `placed` all along.
pub record IsTidy (b : Breakpoint) (placed : Placed) : Type 0 where
  pub apart : no_overlaps (values placed) ≡ true
  pub inside : all (on_grid b) (values placed) ≡ true

pub parse_layout_for_card-at :
    (t : VisualizationType) (value : Json) (l : Layout)
    → parse_layout_for_card value t ≡ some l
    → (b : Breakpoint) → (v : Json) × (parse_at t b v ≡ some (at b l))
unfolding parse_layout_for_card
parse_layout_for_card-at t (Json.obj fs) l h Breakpoint.desktop =
    (Json.get fs "desktop", ground arith)
parse_layout_for_card-at t (Json.obj fs) l h Breakpoint.tablet =
    (Json.get fs "tablet", ground arith)
parse_layout_for_card-at t (Json.obj fs) l h Breakpoint.mobile =
    (Json.get fs "mobile", ground arith)
parse_layout_for_card-at t Json.null l h b = cc
parse_layout_for_card-at t (Json.bool x) l h b = cc
parse_layout_for_card-at t (Json.num x) l h b = cc
parse_layout_for_card-at t (Json.str x) l h b = cc
parse_layout_for_card-at t (Json.arr x) l h b = cc
