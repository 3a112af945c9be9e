-- ===== src/Queries/Tests.antt =====
-- The theorems of Queries at concrete inputs.
mod Joins
mod Graph
use queryops_ai.Prelude.{true, false, ◌&&◌, none, some, List, [], ◌∷◌, str_eq, find_first, ◌≡◌}
use queryops_ai.Auth.Context.{AccessScopeContext, UserAccessContext, has_permission}
use queryops_ai.Queries.Requests.{
  QueryTemplate, authorize_query_request, reaches, authorize_query_request-allowed,
}

abbrev sales : AccessScopeContext
sales = record {
  id = 20;
  type = "department";
  key = "sales";
  display_name = "Sales";
  access_level = "read";
  is_default = true;
  department_id = some 30;
}

abbrev viewer : UserAccessContext
viewer = record {
  user_id = 1;
  role = some "viewer";
  permissions = "can_use_query_templates" ∷ [];
  scopes = sales ∷ [];
  default_scope = some sales;
  has_global_scope = false;
  subject_attributes = record {
    role = some "viewer";
    permissions = "can_use_query_templates" ∷ [];
    scope_types = "department" ∷ [];
    has_global_scope = false;
    auth_provider = "oidc";
  };
}

abbrev templates : List QueryTemplate
templates = record { id = "unused_licenses"; scope_type = some "department" } ∷ []

authorize_query_request_example :
    (authorize_query_request viewer templates (some "unused_licenses")).allowed ≡ (
      has_permission viewer "can_use_query_templates"
      && (elim (find_first (λ (t : QueryTemplate). str_eq t.id "unused_licenses") templates) [
        | none ↦ false
        | some t ↦ reaches viewer t.scope_type
      ]))
authorize_query_request_example =
    authorize_query_request-allowed viewer templates (some "unused_licenses")
