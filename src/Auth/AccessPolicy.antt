-- ===== src/Auth/AccessPolicy.antt =====
-- backend/app/auth/access_policy.py: the policy decision on an action over a resource.
pub mod Decisions
pub mod Monotone
use queryops_ai.Prelude.{
  String, ◌<>◌, Bool, true, false, not, ◌&&◌, ◌||◌, Option, none, some, List, [], ◌∷◌, map, str_eq,
  if◌then◌else◌, select, contains,
}
use queryops_ai.Prelude.Uuid.{Uuid, uuid_str}
use queryops_ai.Prelude.Sorting.{sort_by, str_le}
use queryops_ai.Prelude.Results.{Result, ok, err}
use queryops_ai.Prelude.Values
use queryops_ai.Prelude.Values.{Value, null, str, flag, Dict, truthy, or_value, to_str}
use queryops_ai.Auth.Permissions.{ApiError}
use queryops_ai.Auth.Context.{UserAccessContext, has_permission, has_scope}

abbrev pub authorization_denied_message : String
authorization_denied_message = "You are not authorized to access this resource."

abbrev pub approved_template_query_action : String
approved_template_query_action = "query:approved_template"

abbrev pub action_required_permissions : List (String × String)
action_required_permissions =
    (approved_template_query_action, "can_use_query_templates")
    ∷ ("query:scoped_data", "can_query_scoped_data")
    ∷ ("view:scoped_data", "can_view_scoped_data")
    ∷ ("query:global_data", "can_query_global_data")
    ∷ ("view:global_data", "can_view_global_data")
    ∷ ("query:product_tables", "can_query_product_tables")
    ∷ ("dashboard:create_scope", "can_create_scope_dashboard")
    ∷ ("dashboard:manage_scope", "can_manage_scope_dashboard")
    ∷ ("action:request", "can_request_action")
    ∷ ("action:approve_scoped", "can_approve_scoped_action")
    ∷ ("action:approve_global", "can_approve_global_action")
    ∷ ("action:approve_override", "can_approve_policy_override")
    ∷ ("audit:view_scope", "can_view_scope_audit")
    ∷ ("audit:view_global", "can_view_global_audit")
    ∷ ("evaluation:view_scope", "can_view_scope_evaluation")
    ∷ ("query_history:view_scope", "can_view_query_history_scope")
    ∷ []

-- `table.get(key)`
unfoldable pub lookup : List (String × String) → String → Option String
lookup [] k = none
lookup ((j, v) ∷ rows) k = let rest = lookup rows k in if str_eq j k then some v else rest

unfoldable pub required_permission_of : String → Option String
unfolding lookup
required_permission_of action = lookup action_required_permissions action

-- `action in SCOPED_DATA_ACTIONS`
unfoldable pub is_scoped_data_action : String → Bool
is_scoped_data_action action =
    contains action (approved_template_query_action ∷ "query:scoped_data" ∷ "view:scoped_data" ∷ [])

-- `action in EXACT_SCOPE_ACTIONS`
unfoldable pub is_exact_scope_action : String → Bool
is_exact_scope_action action =
    contains action ("action:request" ∷ "action:approve_scoped" ∷ "audit:view_scope" ∷ [])

-- `action in QUERY_ACTIONS`
unfoldable pub is_query_action : String → Bool
is_query_action action = contains action (
    approved_template_query_action ∷ "query:scoped_data" ∷ "query:global_data"
    ∷ "query:product_tables" ∷ [])

pub record DataResource : Type 0 where
  pub id : Uuid
  pub resource_type : String
  pub domain : String
  pub schema_name : Option String
  pub table_name : Option String
  pub column_name : Option String
  pub display_name : String
  pub sensitivity_level : String
  pub scope_type : Option String
  pub scope_column : Option String
  pub is_queryable : Bool
  pub is_exportable : Bool
  pub llm_exposure_level : String

-- `DataResource | dict[str, Any]`
pub data Resource : Type 0 where
  row : DataResource → Resource
  dict : Dict → Resource

abbrev optional : Option String → Value
optional none = null
optional (some s) = str s

unfoldable pub resource_to_dict : Resource → Dict
resource_to_dict (dict d) = d
resource_to_dict (row r) =
    ("id", str (uuid_str r.id))
    ∷ ("resource_type", str r.resource_type)
    ∷ ("domain", str r.domain)
    ∷ ("schema_name", optional r.schema_name)
    ∷ ("table_name", optional r.table_name)
    ∷ ("column_name", optional r.column_name)
    ∷ ("display_name", str r.display_name)
    ∷ ("sensitivity_level", str r.sensitivity_level)
    ∷ ("scope_type", optional r.scope_type)
    ∷ ("scope_column", optional r.scope_column)
    ∷ ("is_queryable", flag r.is_queryable)
    ∷ ("is_exportable", flag r.is_exportable)
    ∷ ("llm_exposure_level", str r.llm_exposure_level)
    ∷ []

-- `value is False`
abbrev is_false : Value → Bool
is_false (flag false) = true
is_false _ = false

abbrev pub resource_is_explicitly_not_queryable : Dict → Bool
resource_is_explicitly_not_queryable resource = is_false (Values.get resource "is_queryable")

pub record Snapshot : Type 0 where
  pub user_id : String
  pub role : Option String
  pub permissions : List String
  pub scopes : List String
  pub has_global_scope : Bool

pub record AccessDecision : Type 0 where
  pub allowed : Bool
  pub effect : String
  pub reason : String
  pub action : String
  pub resource : Dict
  pub required_permission : Option String
  pub matched_scopes : List String
  pub context_snapshot : Option Snapshot

abbrev pub scope_label : String → String → String
scope_label t k = t <> (":" <> k)

unfoldable pub snapshot : UserAccessContext → Snapshot
snapshot subject = record {
  user_id = uuid_str subject.user_id;
  role = subject.role;
  permissions = sort_by str_le subject.permissions;
  scopes = map (λ scope. scope_label scope.type scope.key) subject.scopes;
  has_global_scope = subject.has_global_scope;
}

-- `scope.type == v`, for a value that need be no text
abbrev pub eq_value : String → Value → Bool
eq_value s (str t) = str_eq s t
eq_value s _ = false

module _ (subject : UserAccessContext) (action : String) (resource : Dict) where
  abbrev allow : Option String → String → List String → AccessDecision
  allow required reason matched = record {
    allowed = true;
    effect = "allow";
    reason = reason;
    action = action;
    resource = resource;
    required_permission = required;
    matched_scopes = matched;
    context_snapshot = some (snapshot subject);
  }

  abbrev deny : Option String → String → List String → AccessDecision
  deny required reason matched = record {
    allowed = false;
    effect = "deny";
    reason = reason;
    action = action;
    resource = resource;
    required_permission = required;
    matched_scopes = matched;
    context_snapshot = some (snapshot subject);
  }

  abbrev pub matched_by_type : Value → List String
  matched_by_type scope_type =
      map (λ scope. scope_label scope.type scope.key)
        (select (λ scope. eq_value scope.type scope_type) subject.scopes)

  abbrev pub by_type : Option String → List String → AccessDecision
  by_type required [] = deny required "missing_scope" []
  by_type required (m ∷ ms) = allow required "allow_scope_type" (m ∷ ms)

  -- From the test of `EXACT_SCOPE_ACTIONS` on.
  unfoldable pub evaluate_scope : Option String → Value → Value → AccessDecision
  evaluate_scope required scope_type scope_key =
      if is_exact_scope_action action && (not (truthy scope_type) || not (truthy scope_key))
      then deny required "missing_scope_key" []
      else if not (truthy scope_type)
      then allow required "allow_reference_resource" []
      else if is_scoped_data_action action && not (truthy scope_key)
      then deny required "missing_scope_key" []
      else if subject.has_global_scope
      then allow required "allow_global_scope" ("global:global" ∷ [])
      else if truthy scope_key
      then (if has_scope subject (to_str scope_type) (to_str scope_key)
          then allow required "allow_matching_scope"
              (scope_label (to_str scope_type) (to_str scope_key) ∷ [])
          else deny required "missing_scope" [])
      else by_type required (matched_by_type scope_type)

  -- The checks in their order, once the scope values have been looked up.
  unfoldable pub evaluate_checks : Option String → Value → Value → AccessDecision
  evaluate_checks none scope_type scope_key = deny none "unknown_action" []
  evaluate_checks (some permission) scope_type scope_key =
      if not (has_permission subject permission)
      then deny (some permission) "missing_permission" []
      else if is_query_action action && resource_is_explicitly_not_queryable resource
      then deny (some permission) "resource_not_queryable" []
      else evaluate_scope (some permission) scope_type scope_key

-- `context` is the runtime context, an empty dict where the caller gives none.
unfoldable pub evaluate_access : UserAccessContext → String → Resource → Dict → AccessDecision
evaluate_access subject action resource context =
    let d = resource_to_dict resource in
    evaluate_checks subject action d (required_permission_of action)
      (or_value (Values.get context "scope_type") (Values.get d "scope_type"))
      (or_value (Values.get context "scope_key") (Values.get d "scope_key"))

unfoldable pub authorize_resource_access :
    UserAccessContext → String → Resource → Dict → AccessDecision
authorize_resource_access subject action resource context =
    evaluate_access subject action resource context

unfoldable pub require_access_decision : AccessDecision → Result ApiError (Unit {0})
require_access_decision decision =
    if decision.allowed
    then ok tt
    else err
        (record { code = "FORBIDDEN"; message = authorization_denied_message; status_code = 403 })
