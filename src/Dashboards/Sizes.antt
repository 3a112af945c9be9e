-- ===== src/Dashboards/Sizes.antt =====
-- SIZE_POLICY, DEFAULT_SIZES and BREAKPOINT_COLUMNS of backend/app/dashboards/editor.py.
use queryops_ai.Prelude.{
  ℕ, Bool, true, false, ◌&&◌, List, [], ◌∷◌, ◌==◌, any, all, leb, ltb, ◌≡◌, refl,
}

pub data VisualizationType : Type 0 where
  kpi table bar line area donut semicircle_gauge stacked_bar status_list : VisualizationType

pub data Breakpoint : Type 0 where
  desktop tablet mobile : Breakpoint

unfoldable pub breakpoint_columns : Breakpoint → ℕ
breakpoint_columns Breakpoint.desktop = 12
breakpoint_columns Breakpoint.tablet = 6
breakpoint_columns Breakpoint.mobile = 1

abbrev pub is_mobile : Breakpoint → Bool
is_mobile Breakpoint.mobile = true
is_mobile _ = false

-- A width and a height.
abbrev pub Size : Type 0
Size = ℕ × ℕ

abbrev pub cartesian_sizes : Breakpoint → List Size
cartesian_sizes Breakpoint.desktop =
    (4, 2)
    ∷ (4, 3)
    ∷ (6, 2)
    ∷ (6, 3)
    ∷ (6, 4)
    ∷ (8, 2)
    ∷ (8, 3)
    ∷ (8, 4)
    ∷ (12, 2)
    ∷ (12, 3)
    ∷ (12, 4)
    ∷ []
cartesian_sizes Breakpoint.tablet =
    (3, 2) ∷ (3, 3) ∷ (4, 2) ∷ (4, 3) ∷ (6, 2) ∷ (6, 3) ∷ (6, 4) ∷ []
cartesian_sizes Breakpoint.mobile = (1, 2) ∷ (1, 3) ∷ []

abbrev pub donut_gauge_sizes : Breakpoint → List Size
donut_gauge_sizes Breakpoint.mobile = (1, 2) ∷ (1, 3) ∷ []
donut_gauge_sizes _ = (3, 2) ∷ (3, 3) ∷ (4, 2) ∷ (4, 3) ∷ (6, 2) ∷ (6, 3) ∷ []

abbrev pub kpi_sizes : Breakpoint → List Size
kpi_sizes Breakpoint.mobile = (1, 1) ∷ (1, 2) ∷ []
kpi_sizes _ = (3, 1) ∷ (4, 1) ∷ (6, 1) ∷ []

abbrev pub table_sizes : Breakpoint → List Size
table_sizes Breakpoint.desktop =
    (4, 2)
    ∷ (4, 3)
    ∷ (4, 4)
    ∷ (6, 2)
    ∷ (6, 3)
    ∷ (6, 4)
    ∷ (8, 2)
    ∷ (8, 3)
    ∷ (8, 4)
    ∷ (12, 2)
    ∷ (12, 3)
    ∷ (12, 4)
    ∷ []
table_sizes Breakpoint.tablet =
    (3, 2) ∷ (3, 3) ∷ (3, 4) ∷ (4, 2) ∷ (4, 3) ∷ (4, 4) ∷ (6, 2) ∷ (6, 3) ∷ (6, 4) ∷ []
table_sizes Breakpoint.mobile = (1, 2) ∷ (1, 3) ∷ (1, 4) ∷ []

abbrev pub status_list_sizes : Breakpoint → List Size
status_list_sizes Breakpoint.desktop =
    (4, 2) ∷ (4, 3) ∷ (6, 2) ∷ (6, 3) ∷ (8, 2) ∷ (8, 3) ∷ (8, 4) ∷ (12, 4) ∷ []
status_list_sizes Breakpoint.tablet = (4, 2) ∷ (4, 3) ∷ (6, 2) ∷ (6, 3) ∷ (6, 4) ∷ []
status_list_sizes Breakpoint.mobile = (1, 2) ∷ (1, 3) ∷ []

-- `SIZE_POLICY[type][breakpoint]`
unfoldable pub size_policy : VisualizationType → Breakpoint → List Size
size_policy VisualizationType.kpi b = kpi_sizes b
size_policy VisualizationType.donut b = donut_gauge_sizes b
size_policy VisualizationType.semicircle_gauge b = donut_gauge_sizes b
size_policy VisualizationType.bar b = cartesian_sizes b
size_policy VisualizationType.line b = cartesian_sizes b
size_policy VisualizationType.area b = cartesian_sizes b
size_policy VisualizationType.stacked_bar b = cartesian_sizes b
size_policy VisualizationType.table b = table_sizes b
size_policy VisualizationType.status_list b = status_list_sizes b

-- `DEFAULT_SIZES[type][breakpoint]`
unfoldable pub default_size : VisualizationType → Breakpoint → Size
default_size VisualizationType.kpi Breakpoint.mobile = (1, 1)
default_size VisualizationType.kpi _ = (3, 1)
default_size VisualizationType.table Breakpoint.mobile = (1, 3)
default_size VisualizationType.table _ = (6, 3)
default_size _ Breakpoint.mobile = (1, 2)
default_size VisualizationType.donut _ = (3, 2)
default_size VisualizationType.semicircle_gauge _ = (3, 2)
default_size VisualizationType.status_list _ = (4, 2)
default_size _ _ = (6, 2)

-- `size in sizes`
abbrev pub has_size : List Size → ℕ → ℕ → Bool
has_size sizes w h = any (λ (s : Size). s.0 == w && s.1 == h) sizes

-- The two tables agree: a default size is one that the policy allows, and each allowed size has at
-- least one cell and is no wider than the grid.
pub size_policy_consistent :
    (t : VisualizationType) (b : Breakpoint)
    → (has_size (size_policy t b) (default_size t b).0 (default_size t b).1 ≡ true)
      × (all
            (λ (s : Size). ltb 0 s.0 && ltb 0 s.1 && leb s.0 (breakpoint_columns b))
            (size_policy t b)
          ≡ true)
unfolding size_policy default_size breakpoint_columns
size_policy_consistent VisualizationType.kpi Breakpoint.desktop = (refl, refl)
size_policy_consistent VisualizationType.kpi Breakpoint.tablet = (refl, refl)
size_policy_consistent VisualizationType.kpi Breakpoint.mobile = (refl, refl)
size_policy_consistent VisualizationType.table Breakpoint.desktop = (refl, refl)
size_policy_consistent VisualizationType.table Breakpoint.tablet = (refl, refl)
size_policy_consistent VisualizationType.table Breakpoint.mobile = (refl, refl)
size_policy_consistent VisualizationType.bar Breakpoint.desktop = (refl, refl)
size_policy_consistent VisualizationType.bar Breakpoint.tablet = (refl, refl)
size_policy_consistent VisualizationType.bar Breakpoint.mobile = (refl, refl)
size_policy_consistent VisualizationType.line Breakpoint.desktop = (refl, refl)
size_policy_consistent VisualizationType.line Breakpoint.tablet = (refl, refl)
size_policy_consistent VisualizationType.line Breakpoint.mobile = (refl, refl)
size_policy_consistent VisualizationType.area Breakpoint.desktop = (refl, refl)
size_policy_consistent VisualizationType.area Breakpoint.tablet = (refl, refl)
size_policy_consistent VisualizationType.area Breakpoint.mobile = (refl, refl)
size_policy_consistent VisualizationType.donut Breakpoint.desktop = (refl, refl)
size_policy_consistent VisualizationType.donut Breakpoint.tablet = (refl, refl)
size_policy_consistent VisualizationType.donut Breakpoint.mobile = (refl, refl)
size_policy_consistent VisualizationType.semicircle_gauge Breakpoint.desktop = (refl, refl)
size_policy_consistent VisualizationType.semicircle_gauge Breakpoint.tablet = (refl, refl)
size_policy_consistent VisualizationType.semicircle_gauge Breakpoint.mobile = (refl, refl)
size_policy_consistent VisualizationType.stacked_bar Breakpoint.desktop = (refl, refl)
size_policy_consistent VisualizationType.stacked_bar Breakpoint.tablet = (refl, refl)
size_policy_consistent VisualizationType.stacked_bar Breakpoint.mobile = (refl, refl)
size_policy_consistent VisualizationType.status_list Breakpoint.desktop = (refl, refl)
size_policy_consistent VisualizationType.status_list Breakpoint.tablet = (refl, refl)
size_policy_consistent VisualizationType.status_list Breakpoint.mobile = (refl, refl)
