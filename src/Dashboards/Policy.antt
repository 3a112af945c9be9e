-- ===== src/Dashboards/Policy.antt =====
-- backend/app/dashboards/policy.py: who sees and who manages a dashboard.
use queryops_ai.Prelude.{
  String, Bool, false, not, ◌&&◌, ◌||◌, Option, none, some, List, [], ◌∷◌, ◌==◌, str_eq, any,
  if◌then◌else◌, ◌≡◌, refl, arith,
}
use queryops_ai.Prelude.Uuid.{Uuid}
use queryops_ai.Auth.Permissions.{AppUser}
use queryops_ai.Auth.Context.{AccessScopeContext, UserAccessContext, has_permission}

-- The values that the column's constraint allows.
pub data VisibilityScope : Type 0 where
  personal department global : VisibilityScope

pub record Dashboard : Type 0 where
  pub owner_user_id : Option Uuid
  pub department_id : Option Uuid
  pub visibility_scope : VisibilityScope
  pub is_archived : Bool

abbrev pub is_id : Option Uuid → Uuid → Bool
is_id none i = false
is_id (some j) i = j == i

abbrev pub covers_department : Uuid → AccessScopeContext → Bool
covers_department d scope = str_eq scope.type "department" && is_id scope.department_id d

unfoldable pub department_scope_is_assigned : Option Uuid → UserAccessContext → Bool
department_scope_is_assigned none c = false
department_scope_is_assigned (some d) c = c.has_global_scope || any (covers_department d) c.scopes

abbrev pub is_visible_in : VisibilityScope → Dashboard → AppUser → UserAccessContext → Bool
is_visible_in VisibilityScope.personal d user c = is_id d.owner_user_id user.id
is_visible_in VisibilityScope.global d user c = c.has_global_scope
is_visible_in VisibilityScope.department d user c = department_scope_is_assigned d.department_id c

unfoldable pub dashboard_is_visible : Dashboard → AppUser → UserAccessContext → Bool
dashboard_is_visible d user c = is_visible_in d.visibility_scope d user c

abbrev pub is_manageable_in : VisibilityScope → Dashboard → AppUser → UserAccessContext → Bool
is_manageable_in VisibilityScope.personal d user c =
    is_id d.owner_user_id user.id && has_permission c "can_create_personal_dashboard"
is_manageable_in VisibilityScope.department d user c =
    dashboard_is_visible d user c
    && any (has_permission c)
        ("can_manage_department_dashboard" ∷ "can_manage_scope_dashboard" ∷ [])
is_manageable_in VisibilityScope.global d user c =
    c.has_global_scope && has_permission c "can_manage_global_dashboard"

unfoldable pub dashboard_is_manageable : Dashboard → AppUser → UserAccessContext → Bool
dashboard_is_manageable d user c =
    if d.is_archived then false else is_manageable_in d.visibility_scope d user c

-- The permissions that let a user manage dashboards of the kind.
abbrev pub managing_permissions : VisibilityScope → List String
managing_permissions VisibilityScope.personal = "can_create_personal_dashboard" ∷ []
managing_permissions VisibilityScope.department =
    "can_manage_department_dashboard" ∷ "can_manage_scope_dashboard" ∷ []
managing_permissions VisibilityScope.global = "can_manage_global_dashboard" ∷ []

manageable_in :
    (v : VisibilityScope) (d : Dashboard) (user : AppUser) (c : UserAccessContext)
    → d.visibility_scope ≡ v
    → is_manageable_in v d user c
      ≡ (is_visible_in v d user c && any (has_permission c) (managing_permissions v))
unfolding dashboard_is_visible
manageable_in VisibilityScope.personal d user c e = ground arith
manageable_in VisibilityScope.global d user c e = ground arith
manageable_in VisibilityScope.department d user c e = rw e refl

-- Who manages a dashboard sees it: exactly the users that see a dashboard and hold a permission of its
-- kind manage it, unless it is archived.
pub dashboard_is_manageable_iff :
    (d : Dashboard) (user : AppUser) (c : UserAccessContext)
    → dashboard_is_manageable d user c ≡ (
        not d.is_archived
        && (dashboard_is_visible d user c
            && any (has_permission c) (managing_permissions d.visibility_scope)))
unfolding dashboard_is_manageable dashboard_is_visible
dashboard_is_manageable_iff d user c =
    ground (arith, manageable_in d.visibility_scope d user c refl)
