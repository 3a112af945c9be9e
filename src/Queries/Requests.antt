-- ===== src/Queries/Requests.antt =====
-- backend/app/query_engine/request_authorization.py
use queryops_ai.Prelude.{
  String, Bool, true, false, not, ◌&&◌, ◌||◌, Option, none, some, List, [], ◌∷◌, str_eq, find_first,
  if◌then◌else◌, ◌≡◌, arith, Option-cases, inl, inr,
}
use queryops_ai.Prelude.Values.{Value, null, str, flag, Dict}
use queryops_ai.Auth.Context.{AccessScopeContext, UserAccessContext, has_permission, has_scope}
use queryops_ai.Auth.AccessPolicy.{
  dict, approved_template_query_action, authorize_resource_access, evaluate_access, evaluate_checks,
  evaluate_scope, resource_to_dict, required_permission_of, is_query_action, is_exact_scope_action,
  is_scoped_data_action,
}

pub record QueryTemplate : Type 0 where
  pub id : String
  pub scope_type : Option String

pub record QueryRequestAuthorization : Type 0 where
  pub allowed : Bool
  pub error_code : Option String

-- The key of the first scope of the type.
abbrev pub matching_key : String → List AccessScopeContext → Option String
matching_key t scopes =
    elim (find_first (λ (scope : AccessScopeContext). str_eq scope.type t) scopes) [
      | none ↦ none
      | some scope ↦ some scope.key
    ]

abbrev pub default_or_matching_key :
    String → UserAccessContext → Option AccessScopeContext → Option String
default_or_matching_key t c none = matching_key t c.scopes
default_or_matching_key t c (some default_scope) =
    if str_eq default_scope.type t then some default_scope.key else matching_key t c.scopes

-- `_scope_key_for_template`, by the template's scope type
abbrev pub scope_key_for : UserAccessContext → Option String → Option String
scope_key_for c none = none
scope_key_for c (some t) =
    if c.has_global_scope then some "global" else default_or_matching_key t c c.default_scope

abbrev pub optional_value : Option String → Value
optional_value none = null
optional_value (some s) = str s

abbrev pub template_resource : QueryTemplate → Option String → Dict
template_resource template key =
    ("resource_type", str "query_template")
    ∷ ("domain", str "it_operations")
    ∷ ("table_name", str template.id)
    ∷ ("scope_type", optional_value template.scope_type)
    ∷ ("scope_key", optional_value key)
    ∷ ("is_queryable", flag true)
    ∷ []

unfoldable pub template_is_allowed : QueryTemplate → UserAccessContext → Bool
template_is_allowed template c =
    (authorize_resource_access c approved_template_query_action
      (dict (template_resource template (scope_key_for c template.scope_type))) []).allowed

abbrev pub refuse : String → QueryRequestAuthorization
refuse code = record { allowed = false; error_code = some code }

-- `templates` are those of the domain pack, whose ids are different.
unfoldable pub authorize_query_request :
    UserAccessContext → List QueryTemplate → Option String → QueryRequestAuthorization
authorize_query_request c templates none =
    if has_permission c "can_run_free_query"
    then record { allowed = true; error_code = none }
    else refuse "forbidden"
authorize_query_request c templates (some template_id) =
    if not (has_permission c "can_use_query_templates")
    then refuse "forbidden"
    else elim (find_first (λ (t : QueryTemplate). str_eq t.id template_id) templates) [
      | none ↦ refuse "query_template_not_found"
      | some template ↦
          if not (template_is_allowed template c)
          then refuse "query_template_not_found"
          else record { allowed = true; error_code = none }
    ]

-- A key that is there, is no empty text, and names a scope of the user.
abbrev pub names_scope : UserAccessContext → String → Option String → Bool
names_scope c t none = false
names_scope c t (some k) = not (str_eq k "") && has_scope c t k

-- The user reaches what a template of the scope type reads.
abbrev pub reaches : UserAccessContext → Option String → Bool
reaches c none = true
reaches c (some t) =
    str_eq t ""
    || c.has_global_scope
    || names_scope c t (default_or_matching_key t c c.default_scope)

template_allowed_at :
    (i : String) (s : Option String) (c : UserAccessContext)
    → template_is_allowed (record { id = i; scope_type = s }) c
      ≡ (has_permission c "can_use_query_templates" && reaches c s)
unfolding template_is_allowed authorize_resource_access evaluate_access evaluate_checks
    evaluate_scope resource_to_dict required_permission_of is_query_action is_exact_scope_action
    is_scoped_data_action
template_allowed_at i none c = ground arith
template_allowed_at i (some t) c = ground arith

-- A query request is let in exactly so: a free one with the permission for free queries; a request for
-- a template with the permission for templates, if there is such a template and the user reaches its
-- scope, that is, it has no scope type, or the user has the global scope, or the key of the user's
-- default scope (if it has the type) or else of the first scope of the type names a scope of the user.
pub authorize_query_request-allowed :
    (c : UserAccessContext) (templates : List QueryTemplate) (requested : Option String)
    → (authorize_query_request c templates requested).allowed ≡ (elim requested [
      | none ↦ has_permission c "can_run_free_query"
      | some i ↦
          has_permission c "can_use_query_templates"
          && (elim (find_first (λ (t : QueryTemplate). str_eq t.id i) templates) [
            | none ↦ false
            | some t ↦ reaches c t.scope_type
          ])
    ])
unfolding authorize_query_request
authorize_query_request-allowed c templates none = ground arith
authorize_query_request-allowed c templates (some i) =
    elim (Option-cases (find_first (λ (t : QueryTemplate). str_eq t.id i) templates)) [
      | inl absent ↦ ground (arith, absent)
      | inr (t, there) ↦ ground (arith, there, template_allowed_at t.id t.scope_type c)
    ]
