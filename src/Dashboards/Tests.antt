-- ===== src/Dashboards/Tests.antt =====
-- The theorems of Dashboards at concrete inputs.
use queryops_ai.Prelude.{
  ℕ, ◌+◌, ◌≤◌, true, false, none, some, List, [], ◌∷◌, ◌==◌, any, all, ltb, leb, ◌&&◌, ◌≡◌, refl,
  ◌↔◌, arith,
}
use queryops_ai.Prelude.Uuid.{Uuid}
use queryops_ai.Prelude.Int.{pos}
use queryops_ai.Prelude.Sorting.{sort_by}
use queryops_ai.Prelude.Json
use queryops_ai.Prelude.Json.{Json}
use queryops_ai.Auth.Permissions.{AppUser, UserStatus}
use queryops_ai.Auth.Context.{UserAccessContext, has_permission}
use queryops_ai.Dashboards.Policy.{
  Dashboard, VisibilityScope, dashboard_is_visible, dashboard_is_manageable, managing_permissions,
  dashboard_is_manageable_iff,
}
use queryops_ai.Dashboards.Grid.{
  Coordinates, max_layout_y, overlaps, candidate, first_available_coordinates, search_rows,
  search_row, has_exactly, parse_coordinates,
}
use queryops_ai.Dashboards.Grid.Cells.{Covers, overlaps_iff}
use queryops_ai.Dashboards.Grid.Search.{
  Before, first_available_coordinates_sound, first_available_coordinates-IsSome,
}
use queryops_ai.Dashboards.Sizes.{
  VisualizationType, Breakpoint, Size, breakpoint_columns, size_policy, default_size, has_size,
  size_policy_consistent,
}
use queryops_ai.Dashboards.Layout.{
  Layout, Card, values, is_placed, no_overlaps, parse_layout_for_card, normalize_breakpoint,
  normalize_card_layouts, Normalized, place_rest, keep_existing, put_item, parse_at,
}
use queryops_ai.Dashboards.Layout.Items.{on_grid}
use queryops_ai.Dashboards.Layout.Placement.{round, normalize_card_layouts_sound}
use queryops_ai.Dashboards.Layout.Stable.{own_items, normalize_breakpoint-own}

abbrev rectangle : ℕ → ℕ → ℕ → ℕ → Coordinates
rectangle x y w h = record { x = x; y = y; w = w; h = h }

overlaps_example :
    (overlaps (rectangle 0 0 4 2) (rectangle 3 1 4 2) ≡ true)
    ↔ ((i : ℕ) × (j : ℕ) × Covers (rectangle 0 0 4 2) i j × Covers (rectangle 3 1 4 2) i j)
overlaps_example =
    overlaps_iff (rectangle 0 0 4 2) (rectangle 3 1 4 2)
      (omega arith, omega arith, omega arith, omega arith)

-- The top row has six columns left.
abbrev occupied : List Coordinates
occupied = rectangle 0 0 6 2 ∷ []

beside : first_available_coordinates 12 6 2 occupied ≡ some (rectangle 6 0 6 2)
unfolding first_available_coordinates search_rows search_row overlaps
beside = refl

first_available_coordinates_example :
    let c = rectangle 6 0 6 2 in
    (c.w ≡ 6)
    × (c.h ≡ 2)
    × (c.x + c.w ≤ 12)
    × (c.y ≤ max_layout_y)
    × (any (overlaps c) occupied ≡ false)
    × ((i k : ℕ)
        → i + 6 ≤ 12
        → Before i k 6 0
        → any (overlaps (candidate 6 2 occupied i k)) occupied ≡ true)
first_available_coordinates_example =
    first_available_coordinates_sound 6 2 occupied 12 (rectangle 6 0 6 2) beside

first_available_coordinates-IsSome_example :
    (c : Coordinates) × (first_available_coordinates 12 6 2 occupied ≡ some c)
first_available_coordinates-IsSome_example =
    first_available_coordinates-IsSome 6 2 occupied 12 (omega arith) refl

size_policy_example :
    (has_size (size_policy VisualizationType.table Breakpoint.tablet) 6 3 ≡ true)
    × (all
          (λ (s : Size). ltb 0 s.0 && ltb 0 s.1 && leb s.0 6)
          (size_policy VisualizationType.table Breakpoint.tablet)
        ≡ true)
unfolding breakpoint_columns default_size
size_policy_example = size_policy_consistent VisualizationType.table Breakpoint.tablet

abbrev place : ℕ → ℕ → ℕ → ℕ → Json
place x y w h = Json.obj (
    Json.field "x" (Json.num (pos x)) (
      Json.field "y" (Json.num (pos y))
        (Json.field "w" (Json.num (pos w)) (Json.field "h" (Json.num (pos h)) Json.end))))

-- A number in the corner of each breakpoint, and two cards without a layout.
abbrev number : Card
number = record {
  id = 1;
  position = 0;
  created_at = 10;
  visualization_type = VisualizationType.kpi;
  layout = Json.obj (
      Json.field "version" (Json.num (pos 1)) (
        Json.field "desktop" (place 0 0 3 1)
          (Json.field "tablet" (place 0 0 3 1) (Json.field "mobile" (place 0 0 1 1) Json.end))));
}

abbrev details : Card
details = record {
  id = 2;
  position = 1;
  created_at = 11;
  visualization_type = VisualizationType.table;
  layout = Json.null;
}

abbrev total : Card
total = record {
  id = 3;
  position = 0;
  created_at = 12;
  visualization_type = VisualizationType.kpi;
  layout = Json.null;
}

abbrev both_placed : Normalized
both_placed = record {
  desktop = (3, rectangle 0 0 3 1) ∷ (2, rectangle 3 0 6 3) ∷ [];
  tablet = (3, rectangle 0 0 3 1) ∷ (2, rectangle 0 1 6 3) ∷ [];
  mobile = (3, rectangle 0 0 1 1) ∷ (2, rectangle 0 1 1 3) ∷ [];
}

both_normalize : normalize_card_layouts (details ∷ total ∷ []) ≡ some both_placed
unfolding normalize_card_layouts normalize_breakpoint place_rest sort_by keep_existing
    parse_layout_for_card breakpoint_columns put_item first_available_coordinates search_rows
    search_row default_size overlaps
both_normalize = refl

normalize_card_layouts_example :
    (no_overlaps (values (round Breakpoint.tablet both_placed)) ≡ true)
    × (all (on_grid Breakpoint.tablet) (values (round Breakpoint.tablet both_placed)) ≡ true)
    × ((i : Uuid)
        → any (λ (card : Card). card.id == i) (details ∷ total ∷ []) ≡ true
        → is_placed i (round Breakpoint.tablet both_placed) ≡ true)
normalize_card_layouts_example =
    normalize_card_layouts_sound (details ∷ total ∷ []) both_placed both_normalize Breakpoint.tablet

abbrev corner : Layout
corner = record {
  desktop = rectangle 0 0 3 1;
  tablet = rectangle 0 0 3 1;
  mobile = rectangle 0 0 1 1;
}

number-parses : parse_layout_for_card number.layout VisualizationType.kpi ≡ some corner
unfolding parse_layout_for_card has_exactly Json.has Json.get parse_at parse_coordinates
    breakpoint_columns size_policy
number-parses = refl

normalize_breakpoint-own_example :
    normalize_breakpoint Breakpoint.desktop (number ∷ [])
    ≡ some (own_items Breakpoint.desktop (number ∷ []) (corner ∷ []))
normalize_breakpoint-own_example =
    normalize_breakpoint-own Breakpoint.desktop (number ∷ []) (corner ∷ []) (number-parses, tt) refl
      refl

abbrev owner : AppUser
owner = record { id = 1; role_id = none; status = UserStatus.active; auth_provider = "oidc" }

abbrev owner_context : UserAccessContext
owner_context = record {
  user_id = 1;
  role = none;
  permissions = "can_create_personal_dashboard" ∷ [];
  scopes = [];
  default_scope = none;
  has_global_scope = false;
  subject_attributes = record {
    role = none;
    permissions = "can_create_personal_dashboard" ∷ [];
    scope_types = [];
    has_global_scope = false;
    auth_provider = "oidc";
  };
}

abbrev own_dashboard : Dashboard
own_dashboard = record {
  owner_user_id = some 1;
  department_id = none;
  visibility_scope = VisibilityScope.personal;
  is_archived = false;
}

dashboard_is_manageable_example : dashboard_is_manageable own_dashboard owner owner_context ≡ (
    true
    && (dashboard_is_visible own_dashboard owner owner_context
        && any (has_permission owner_context) (managing_permissions VisibilityScope.personal)))
dashboard_is_manageable_example = dashboard_is_manageable_iff own_dashboard owner owner_context
