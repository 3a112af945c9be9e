-- ===== src/Auth/Context.antt =====
-- backend/app/auth/access_context.py: permissions and assigned scopes, read once for a request.
pub mod Scopes
use queryops_ai.Prelude.{
  ℕ, String, Bool, true, false, not, ◌&&◌, ◌||◌, Option, none, some, List, [], ◌∷◌, ◌++◌, map, ◌==◌,
  str_eq, if◌then◌else◌, any, find_first, contains,
}
use queryops_ai.Prelude.Uuid.{Uuid}
use queryops_ai.Prelude.Sorting.{sort_by, str_le, distinct}
use queryops_ai.Auth.Permissions.{AppUser, AuthDb, Role, resolve_effective_permission_keys}

pub record AccessScopeContext : Type 0 where
  pub id : Uuid
  pub type : String
  pub key : String
  pub display_name : String
  pub access_level : String
  pub is_default : Bool
  pub department_id : Option Uuid

pub record SubjectAttributes : Type 0 where
  pub role : Option String
  pub permissions : List String
  pub scope_types : List String
  pub has_global_scope : Bool
  pub auth_provider : String

pub record UserAccessContext : Type 0 where
  pub user_id : Uuid
  pub role : Option String
  pub permissions : List String
  pub scopes : List AccessScopeContext
  pub default_scope : Option AccessScopeContext
  pub has_global_scope : Bool
  pub subject_attributes : SubjectAttributes

-- `UserAccessContext.has_permission`
abbrev pub has_permission : UserAccessContext → String → Bool
has_permission c permission_key = contains permission_key c.permissions

-- `UserAccessContext.has_scope`
abbrev pub has_scope : UserAccessContext → String → String → Bool
has_scope c scope_type scope_key =
    any (λ scope. str_eq scope.type scope_type && str_eq scope.key scope_key) c.scopes

-- A row of access_scopes.
pub record AccessScope : Type 0 where
  pub id : Uuid
  pub scope_type : String
  pub scope_key : String
  pub display_name : String
  pub department_id : Option Uuid

-- A row of user_access_scopes.
pub record UserAccessScope : Type 0 where
  pub user_id : Uuid
  pub scope_id : Uuid
  pub access_level : String
  pub is_default : Bool

abbrev pub scope_context : UserAccessScope → AccessScope → AccessScopeContext
scope_context user_scope scope = record {
  id = scope.id;
  type = scope.scope_type;
  key = scope.scope_key;
  display_name = scope.display_name;
  access_level = user_scope.access_level;
  is_default = user_scope.is_default;
  department_id = scope.department_id;
}

-- The scope rows that one link reaches.
pub linked_scopes : UserAccessScope → List AccessScope → List AccessScopeContext
linked_scopes link [] = []
linked_scopes link (scope ∷ scopes) =
    let rest = linked_scopes link scopes in
    if scope.id == link.scope_id then scope_context link scope ∷ rest else rest

-- The join of both tables at one user.
pub user_scopes : Uuid → List UserAccessScope → List AccessScope → List AccessScopeContext
user_scopes u [] scopes = []
user_scopes u (link ∷ links) scopes =
    let rest = user_scopes u links scopes in
    if link.user_id == u then linked_scopes link scopes ++ rest else rest

-- The database orders texts by its collation, `text_le`.
module _ (text_le : String → String → Bool) where
  -- ORDER BY is_default DESC, scope_type, scope_key
  pub scope_le : AccessScopeContext → AccessScopeContext → Bool
  scope_le a b =
      if a.is_default && not b.is_default
      then true
      else if b.is_default && not a.is_default
      then false
      else if not (str_eq a.type b.type)
      then text_le a.type b.type
      else text_le a.key b.key

  pub load_scope_contexts :
      AppUser → List UserAccessScope → List AccessScope → List AccessScopeContext
  unfolding scope_le linked_scopes user_scopes
  load_scope_contexts user links scopes = sort_by scope_le (user_scopes user.id links scopes)

-- The flagged scope, or else the first.
abbrev pub first_or_default :
    Option AccessScopeContext → List AccessScopeContext → Option AccessScopeContext
first_or_default (some scope) scopes = some scope
first_or_default none [] = none
first_or_default none (scope ∷ scopes) = some scope

abbrev pub is_global : AccessScopeContext → Bool
is_global scope = str_eq scope.type "global" && str_eq scope.key "global"

abbrev role_name : AppUser → AuthDb → Option String
role_name user db = elim user.role_id [
  | none ↦ none
  | some r ↦ elim (find_first (λ (role : Role). role.id == r) db.roles) [
    | none ↦ none
    | some role ↦ some role.name
  ]
]

-- The context of a user whose scopes have been loaded.
unfoldable pub build_user_access_context :
    AppUser → AuthDb → List AccessScopeContext → UserAccessContext
build_user_access_context user db scopes =
    let permissions = resolve_effective_permission_keys user db in
    let role = role_name user db in
    let has_global_scope = any is_global scopes in
    record {
      user_id = user.id;
      role = role;
      permissions = permissions;
      scopes = scopes;
      default_scope = first_or_default (find_first (λ s. s.is_default) scopes) scopes;
      has_global_scope = has_global_scope;
      subject_attributes = record {
        role = role;
        permissions = sort_by str_le permissions;
        scope_types = sort_by str_le (distinct (map (λ s. s.type) scopes));
        has_global_scope = has_global_scope;
        auth_provider = user.auth_provider;
      };
    }
