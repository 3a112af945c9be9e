-- ===== src/Auth/Permissions.antt =====
-- backend/app/auth/permissions.py, with the rows of backend/app/models/product.py that it reads.
-- A table is a list of rows; a join goes through both.
pub mod Effective
use mathlib.Core.List.{flatten}
use queryops_ai.Prelude.{
  ℕ, String, Bool, true, false, not, ◌&&◌, ◌||◌, Option, none, some, List, [], ◌∷◌, ◌++◌, map, ◌==◌,
  str_eq, if◌then◌else◌, any, select, find_first, contains,
}
use queryops_ai.Prelude.Uuid.{Uuid}
use queryops_ai.Prelude.Results.{Result, ok, err}
use queryops_ai.Prelude.Sorting.{sort_by, str_le, distinct}

pub record ApiError : Type 0 where
  pub code : String
  pub message : String
  pub status_code : ℕ

pub data UserStatus : Type 0 where
  active invited disabled : UserStatus

pub data PermissionEffect : Type 0 where
  allow deny : PermissionEffect

pub record AppUser : Type 0 where
  pub id : Uuid
  pub role_id : Option Uuid
  pub status : UserStatus
  pub auth_provider : String

pub record Permission : Type 0 where
  pub id : Uuid
  pub key : String

pub record RolePermission : Type 0 where
  pub role_id : Uuid
  pub permission_id : Uuid

pub record UserPermission : Type 0 where
  pub user_id : Uuid
  pub permission_id : Uuid
  pub effect : PermissionEffect

pub record Role : Type 0 where
  pub id : Uuid
  pub name : String

-- The tables that authorization reads.
pub record AuthDb : Type 0 where
  pub users : List AppUser
  pub roles : List Role
  pub permissions : List Permission
  pub role_permissions : List RolePermission
  pub user_permissions : List UserPermission

pub record SessionData : Type 0 where
  pub user_id : Uuid
  pub auth_provider : String

abbrev pub is_active : UserStatus → Bool
is_active UserStatus.active = true
is_active _ = false

abbrev pub is_allow : PermissionEffect → Bool
is_allow PermissionEffect.allow = true
is_allow PermissionEffect.deny = false

abbrev pub is_deny : PermissionEffect → Bool
is_deny PermissionEffect.allow = false
is_deny PermissionEffect.deny = true

-- The keys of the permission rows with this id: one side of a join.
pub keys_of : Uuid → List Permission → List String
keys_of p [] = []
keys_of p (row ∷ rows) = let rest = keys_of p rows in if row.id == p then row.key ∷ rest else rest

-- Permission joined with RolePermission, at one role.
pub role_keys : Uuid → AuthDb → List RolePermission → List String
role_keys r db [] = []
role_keys r db (link ∷ links) =
    let rest = role_keys r db links in
    if link.role_id == r then keys_of link.permission_id db.permissions ++ rest else rest

-- Permission joined with UserPermission, at one user, with the rows of one effect.
pub user_keys : (PermissionEffect → Bool) → Uuid → AuthDb → List UserPermission → List String
user_keys wanted u db [] = []
user_keys wanted u db (link ∷ links) =
    let rest = user_keys wanted u db links in
    if link.user_id == u && wanted link.effect
    then keys_of link.permission_id db.permissions ++ rest
    else rest

abbrev pub role_permission_keys : AppUser → AuthDb → List String
role_permission_keys user db = elim user.role_id [
  | none ↦ []
  | some r ↦ role_keys r db db.role_permissions
]

unfoldable pub resolve_effective_permission_keys : AppUser → AuthDb → List String
unfolding role_keys user_keys keys_of
resolve_effective_permission_keys user db =
    let allow_keys = user_keys is_allow user.id db db.user_permissions in
    let deny_keys = user_keys is_deny user.id db db.user_permissions in
    sort_by str_le (
      distinct
        (select (λ k. not (contains k deny_keys)) (role_permission_keys user db ++ allow_keys)))

-- `auth_mode` is what the environment configures.
unfoldable pub get_current_app_user_for_session : String → SessionData → AuthDb → Option AppUser
get_current_app_user_for_session auth_mode session db =
    if not (str_eq session.auth_provider auth_mode)
    then none
    else elim (find_first (λ u. u.id == session.user_id) db.users) [
      | none ↦ none
      | some user ↦
          if not (is_active user.status) || not (str_eq user.auth_provider session.auth_provider)
          then none
          else some user
    ]

-- The request's session cookie has been read by then: none if there was no valid one.
unfoldable pub get_current_app_user : String → Option SessionData → AuthDb → Option AppUser
unfolding get_current_app_user_for_session
get_current_app_user auth_mode none db = none
get_current_app_user auth_mode (some session) db =
    get_current_app_user_for_session auth_mode session db

abbrev pub unauthorized : ApiError
unauthorized = record {
  code = "UNAUTHORIZED";
  message = "Authentication is required.";
  status_code = 401;
}

abbrev pub forbidden : ApiError
forbidden = record {
  code = "FORBIDDEN";
  message = "You are not authorized to perform this action.";
  status_code = 403;
}

unfoldable pub require_authenticated_user : Option AppUser → Result ApiError AppUser
require_authenticated_user none = err unauthorized
require_authenticated_user (some user) = ok user

unfoldable pub require_permission : String → AppUser → AuthDb → Result ApiError AppUser
require_permission key user db =
    if not (contains key (resolve_effective_permission_keys user db))
    then err forbidden
    else ok user

unfoldable pub require_any_permission : List String → AppUser → AuthDb → Result ApiError AppUser
require_any_permission keys user db =
    if not (any (λ k. contains k (resolve_effective_permission_keys user db)) keys)
    then err forbidden
    else ok user
