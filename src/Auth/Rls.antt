-- ===== src/Auth/Rls.antt =====
-- backend/app/core/rls.py, and `prepare_scoped_data_access` of backend/app/auth/access_policy.py.
-- What is executed on the transaction is the list of settings, in order.
pub mod Settings
use queryops_ai.Prelude.{
  String, ◌<>◌, Bool, true, false, not, ◌&&◌, Option, none, some, List, [], ◌∷◌, str_eq,
  if◌then◌else◌, contains,
}
use queryops_ai.Prelude.Uuid.{Uuid, uuid_str}
use queryops_ai.Prelude.Results.{Result, ok, err}
use queryops_ai.Prelude.Sorting.{distinct}
use queryops_ai.Prelude.Values.{Dict}
use queryops_ai.Auth.Permissions.{ApiError}
use queryops_ai.Auth.Context.{AccessScopeContext, UserAccessContext}
use queryops_ai.Auth.AccessPolicy.{
  Resource, AccessDecision, authorize_resource_access, require_access_decision,
}

pub record RlsContext : Type 0 where
  pub user_id : Uuid
  pub role : Option String
  pub scope_type : String
  pub scope_keys : List String
  pub has_global_scope : Bool

-- `str(scope.department_id)` of the department scopes that have one.
pub department_keys : List AccessScopeContext → List String
department_keys [] = []
department_keys (scope ∷ scopes) =
    let rest = department_keys scopes in
    if str_eq scope.type "department"
    then elim scope.department_id [ none ↦ rest | some d ↦ uuid_str d ∷ rest ]
    else rest

abbrev pub scoped_context : UserAccessContext → List String → RlsContext
scoped_context c [] = record {
  user_id = c.user_id;
  role = c.role;
  scope_type = "none";
  scope_keys = [];
  has_global_scope = false;
}
scoped_context c (k ∷ ks) = record {
  user_id = c.user_id;
  role = c.role;
  scope_type = "department";
  scope_keys = k ∷ ks;
  has_global_scope = false;
}

unfoldable pub build_rls_context : UserAccessContext → RlsContext
build_rls_context c =
    if c.has_global_scope
    then record {
      user_id = c.user_id;
      role = c.role;
      scope_type = "global";
      scope_keys = [];
      has_global_scope = true;
    }
    else scoped_context c (distinct (department_keys c.scopes))

-- `",".join(keys)`
abbrev join : List String → String
join [] = ""
join (k ∷ []) = k
join (k ∷ (j ∷ ks)) = k <> ("," <> join (j ∷ ks))

abbrev or_empty : Option String → String
or_empty none = ""
or_empty (some s) = s

abbrev pub Setting : Type 0
Setting = String × String

-- Each name is one that `_set_local` accepts.
unfoldable pub rls_settings : RlsContext → List Setting
rls_settings r =
    ("app.current_user_id", uuid_str r.user_id)
    ∷ ("app.current_role", or_empty r.role)
    ∷ ("app.current_scope_type", r.scope_type)
    ∷ ("app.current_scope_keys", join r.scope_keys)
    ∷ ("app.has_global_scope", if r.has_global_scope then "true" else "false")
    ∷ []

abbrev allowed_settings : List String
allowed_settings =
    "app.current_user_id" ∷ "app.current_role" ∷ "app.current_scope_type" ∷ "app.current_scope_keys"
    ∷ "app.has_global_scope" ∷ []

-- The statements that have been executed so far come first; `none` is the ValueError.
pub set_local : List Setting → Setting → Option (List Setting)
set_local done (name, value) =
    if not (contains name allowed_settings) then none else some ((name, value) ∷ done)

pub set_all : List Setting → List Setting → Option (List Setting)
set_all done [] = some done
set_all done (s ∷ settings) = elim (set_local done s) [
  | none ↦ none
  | some more ↦ set_all more settings
]

unfoldable pub set_rls_context : List Setting → RlsContext → Option (List Setting)
unfolding set_local set_all rls_settings
set_rls_context done r = set_all done (rls_settings r)

-- The decision or the error, and the statements that were executed, the last first.
unfoldable pub prepare_scoped_data_access :
    List Setting
    → UserAccessContext
    → String
    → Resource
    → Dict
    → Result ApiError AccessDecision × Option (List Setting)
prepare_scoped_data_access done subject action resource context =
    let decision = authorize_resource_access subject action resource context in
    elim (require_access_decision decision) [
      | err e ↦ (err e, some done)
      | ok _ ↦ (ok decision, set_rls_context done (build_rls_context subject))
    ]
