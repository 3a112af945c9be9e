-- ===== src/Auth/Tests.antt =====
-- The theorems of Auth at concrete inputs.
use mathlib.Core.List.{reverse}
use queryops_ai.Prelude.{
  String, true, false, not, ◌&&◌, ◌||◌, none, some, List, [], ◌∷◌, ◌++◌, ◌==◌, str_eq, any,
  contains, if◌then◌else◌, ◌≡◌, refl, ◌↔◌, arith,
}
use queryops_ai.Prelude.Results.{ok, err}
use queryops_ai.Prelude.Sorting.{str_le, sort_by, distinct}
use queryops_ai.Prelude.Values.{Dict, str}
use queryops_ai.Auth.Permissions.{
  AppUser, AuthDb, UserStatus, PermissionEffect, SessionData, is_allow, is_deny,
  resolve_effective_permission_keys, get_current_app_user, require_any_permission,
}
use queryops_ai.Auth.Permissions.Effective.{
  role_grants, user_has, contains-resolve_effective_permission_keys, require_any_permission_iff,
  get_current_app_user_sound,
}
use queryops_ai.Auth.Context.{
  AccessScope, AccessScopeContext, UserAccessScope, UserAccessContext, load_scope_contexts,
}
use queryops_ai.Auth.Context.Scopes.{link_reaches, any-load_scope_contexts}
use queryops_ai.Auth.AccessPolicy.{
  Resource, dict, resource_to_dict, required_permission_of, evaluate_access, evaluate_checks,
  evaluate_scope, is_query_action, is_exact_scope_action, is_scoped_data_action,
  authorization_denied_message,
}
use queryops_ai.Auth.AccessPolicy.Decisions.{
  scope_type_of, scope_key_of, MeetsChecks, evaluate_access-allowed_iff,
}
use queryops_ai.Auth.AccessPolicy.Monotone.{IsWider, evaluate_access-IsWider}
use queryops_ai.Auth.Rls.{build_rls_context, rls_settings, prepare_scoped_data_access}
use queryops_ai.Auth.Rls.Settings.{
  is_department, build_rls_context_exact, prepare_scoped_data_access_lem,
}

abbrev ann : AppUser
ann = record { id = 1; role_id = some 7; status = UserStatus.active; auth_provider = "oidc" }

-- The role grants both permissions, and a deny row takes one of them away from Ann.
abbrev db : AuthDb
db = record {
  users = ann ∷ [];
  roles = record { id = 7; name = "analyst" } ∷ [];
  permissions =
      record { id = 10; key = "query:scoped_data" }
      ∷ record { id = 11; key = "action:request" }
      ∷ [];
  role_permissions =
      record { role_id = 7; permission_id = 10 } ∷ record { role_id = 7; permission_id = 11 } ∷ [];
  user_permissions =
      record { user_id = 1; permission_id = 11; effect = PermissionEffect.deny } ∷ [];
}

abbrev session : SessionData
session = record { user_id = 1; auth_provider = "oidc" }

ann-keys : resolve_effective_permission_keys ann db ≡ "query:scoped_data" ∷ []
unfolding resolve_effective_permission_keys sort_by distinct
ann-keys = refl

contains-resolve_example : contains "action:request" (resolve_effective_permission_keys ann db) ≡ (
    (role_grants ann db "action:request" || user_has is_allow ann db "action:request")
    && not (user_has is_deny ann db "action:request"))
contains-resolve_example = contains-resolve_effective_permission_keys ann db "action:request"

require_any_permission_example :
    (require_any_permission ("action:request" ∷ []) ann db ≡ ok ann) ↔ (
      any
        (λ k.
          (role_grants ann db k || user_has is_allow ann db k) && not (user_has is_deny ann db k))
        ("action:request" ∷ [])
      ≡ true)
require_any_permission_example = require_any_permission_iff ("action:request" ∷ []) ann db

ann-is_current : get_current_app_user "oidc" (some session) db ≡ some ann
unfolding get_current_app_user
ann-is_current = refl

get_current_app_user_example :
    (s : SessionData) × (some session ≡ some s)
    × (ann.id ≡ s.user_id)
    × (ann.status ≡ UserStatus.active)
    × (ann.auth_provider ≡ "oidc")
get_current_app_user_example =
    get_current_app_user_sound "oidc" (some session) db ann ann-is_current

abbrev links : List UserAccessScope
links =
    record { user_id = 1; scope_id = 20; access_level = "read"; is_default = false }
    ∷ record { user_id = 2; scope_id = 21; access_level = "read"; is_default = true }
    ∷ []

abbrev access_scopes : List AccessScope
access_scopes =
    record {
      id = 20;
      scope_type = "department";
      scope_key = "sales";
      display_name = "Sales";
      department_id = some 30;
    }
    ∷ record {
      id = 21;
      scope_type = "global";
      scope_key = "global";
      display_name = "Global";
      department_id = none;
    }
    ∷ []

any-load_scope_contexts_example :
    any (λ s. str_eq s.key "sales") (load_scope_contexts str_le ann links access_scopes)
    ≡ any
        (λ link. link.user_id == 1 && link_reaches (λ s. str_eq s.key "sales") access_scopes link)
        links
any-load_scope_contexts_example =
    any-load_scope_contexts str_le (λ s. str_eq s.key "sales") ann links access_scopes

abbrev sales : AccessScopeContext
sales = record {
  id = 20;
  type = "department";
  key = "sales";
  display_name = "Sales";
  access_level = "read";
  is_default = false;
  department_id = some 30;
}

abbrev with_permissions : List String → UserAccessContext
with_permissions keys = record {
  user_id = 1;
  role = some "analyst";
  permissions = keys;
  scopes = sales ∷ [];
  default_scope = some sales;
  has_global_scope = false;
  subject_attributes = record {
    role = some "analyst";
    permissions = keys;
    scope_types = "department" ∷ [];
    has_global_scope = false;
    auth_provider = "oidc";
  };
}

abbrev analyst : UserAccessContext
analyst = with_permissions ("can_query_scoped_data" ∷ [])

abbrev approver : UserAccessContext
approver = with_permissions ("can_approve_scoped_action" ∷ "can_query_scoped_data" ∷ [])

abbrev sales_table : Resource
sales_table = dict (("scope_type", str "department") ∷ ("scope_key", str "sales") ∷ [])

abbrev no_context : Dict
no_context = []

analyst-allowed :
    (evaluate_access analyst "query:scoped_data" sales_table no_context).allowed ≡ true
unfolding evaluate_access evaluate_checks evaluate_scope resource_to_dict required_permission_of
    is_query_action is_exact_scope_action is_scoped_data_action
analyst-allowed = refl

evaluate_access_example :
    let d = resource_to_dict sales_table in
    ((evaluate_access analyst "query:scoped_data" sales_table no_context).allowed ≡ true)
    ↔ MeetsChecks analyst "query:scoped_data" d
        (required_permission_of "query:scoped_data")
        (scope_type_of no_context d)
        (scope_key_of no_context d)
evaluate_access_example =
    evaluate_access-allowed_iff analyst "query:scoped_data" sales_table no_context

approver-IsWider : IsWider analyst approver
approver-IsWider = record {
  permissions = λ p held. ground (arith, held);
  scopes = λ q there. there;
  global = λ g. g;
}

evaluate_access-IsWider_example :
    (evaluate_access approver "query:scoped_data" sales_table no_context).allowed ≡ true
evaluate_access-IsWider_example =
    evaluate_access-IsWider approver-IsWider "query:scoped_data" sales_table no_context
      analyst-allowed

build_rls_context_example :
    ((build_rls_context analyst).has_global_scope ≡ false)
    × (contains "30" (build_rls_context analyst).scope_keys
        ≡ (not false && any (is_department "30") (sales ∷ [])))
build_rls_context_example = build_rls_context_exact analyst "30"

prepare_scoped_data_access_example :
    let decision = evaluate_access analyst "query:scoped_data" sales_table no_context in
    prepare_scoped_data_access [] analyst "query:scoped_data" sales_table no_context ≡ (
      if decision.allowed
      then (ok decision, some (reverse (rls_settings (build_rls_context analyst)) ++ []))
      else (
        err (record {
          code = "FORBIDDEN";
          message = authorization_denied_message;
          status_code = 403;
        }),
        some [],
      ))
prepare_scoped_data_access_example =
    prepare_scoped_data_access_lem [] analyst "query:scoped_data" sales_table no_context
