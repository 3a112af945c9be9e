-- ===== src/Auth/Permissions/Effective.antt =====
-- Which keys are effective: what the role or an allow row grants, and no deny row takes away.
use mathlib.Core.Path.{fun_ext}
use queryops_ai.Prelude.{
  String, Bool, true, false, not, ◌&&◌, ◌||◌, none, some, List, [], ◌∷◌, ◌++◌, ◌==◌, ◌≡◌, refl, ◌↔◌,
  inl, inr, ◌∙◌, str_eq, any, any-append, select, contains, arith, eq_iff, find_first,
  find_first_sound, contains-select, Option, Option-cases,
}
use queryops_ai.Prelude.Uuid.{Uuid}
use queryops_ai.Prelude.Results.{ok}
use queryops_ai.Prelude.Sorting.{
  str_le, distinct, any-sort_by, contains-distinct, NoRepeats, distinct-NoRepeats,
  sort_by-NoRepeats,
}
use queryops_ai.Auth.Permissions.{
  AppUser, AuthDb, Permission, RolePermission, UserPermission, PermissionEffect, SessionData,
  UserStatus, is_active, is_allow, is_deny, keys_of, role_keys, user_keys, role_permission_keys,
  resolve_effective_permission_keys, get_current_app_user, require_any_permission,
}

-- A permission row names the key.
abbrev pub names : AuthDb → Uuid → String → Bool
names db p k = any (λ row. row.id == p && str_eq k row.key) db.permissions

-- The role of the user is linked to a permission with the key.
abbrev pub role_grants : AppUser → AuthDb → String → Bool
role_grants user db k = elim user.role_id [
  | none ↦ false
  | some r ↦ any (λ link. link.role_id == r && names db link.permission_id k) db.role_permissions
]

-- The user has a row of the effect for a permission with the key.
abbrev pub user_has : (PermissionEffect → Bool) → AppUser → AuthDb → String → Bool
user_has wanted user db k =
    any (λ link. (link.user_id == user.id && wanted link.effect) && names db link.permission_id k)
      db.user_permissions

contains-keys_of :
    (k : String) (p : Uuid) (rows : List Permission)
    → contains k (keys_of p rows) ≡ any (λ row. row.id == p && str_eq k row.key) rows
unfolding keys_of
contains-keys_of k p [] = refl
contains-keys_of k p (row ∷ rows) = ground (arith, contains-keys_of k p rows)

contains-role_keys :
    (k : String) (r : Uuid) (db : AuthDb) (links : List RolePermission)
    → contains k (role_keys r db links)
      ≡ any (λ link. link.role_id == r && names db link.permission_id k) links
unfolding role_keys
contains-role_keys k r db [] = refl
contains-role_keys k r db (link ∷ links) = ground (
  arith,
  any-append (str_eq k) (keys_of link.permission_id db.permissions) (role_keys r db links),
  contains-keys_of k link.permission_id db.permissions,
  contains-role_keys k r db links,
)

contains-user_keys :
    (k : String) (wanted : PermissionEffect → Bool) (u : Uuid) (db : AuthDb)
    (links : List UserPermission)
    → contains k (user_keys wanted u db links)
      ≡ any
          (λ link. (link.user_id == u && wanted link.effect) && names db link.permission_id k)
          links
unfolding user_keys
contains-user_keys k wanted u db [] = refl
contains-user_keys k wanted u db (link ∷ links) = ground (
  arith,
  any-append (str_eq k) (keys_of link.permission_id db.permissions) (user_keys wanted u db links),
  contains-keys_of k link.permission_id db.permissions,
  contains-user_keys k wanted u db links,
)

contains-role_permission_keys :
    (k : String) (user : AppUser) (db : AuthDb)
    → contains k (role_permission_keys user db) ≡ role_grants user db k
contains-role_permission_keys k user db = elim (Option-cases user.role_id) [
  | inl absent ↦ rw absent
  | inr (r, there) ↦ rw there (contains-role_keys k r db db.role_permissions)
]

-- The keys that `resolve_effective_permission_keys` returns are exactly those that the user's role
-- grants or an allow row of the user grants, and that no deny row of the user names: a deny row
-- always wins.
pub contains-resolve_effective_permission_keys :
    (user : AppUser) (db : AuthDb) (k : String)
    → contains k (resolve_effective_permission_keys user db)
      ≡ ((role_grants user db k || user_has is_allow user db k) && not (user_has is_deny user db k))
unfolding resolve_effective_permission_keys
contains-resolve_effective_permission_keys user db k =
    let denied = user_keys is_deny user.id db db.user_permissions in
    let granted =
      role_permission_keys user db ++ user_keys is_allow user.id db db.user_permissions in
    any-sort_by str_le (str_eq k) (distinct (select (λ x. not (contains x denied)) granted))
    ∙ contains-distinct k (select (λ x. not (contains x denied)) granted)
    ∙ contains-select (λ x. not (contains x denied)) k granted
    ∙ ground (
      arith,
      any-append (str_eq k) (role_permission_keys user db)
          (user_keys is_allow user.id db db.user_permissions),
      contains-role_permission_keys k user db,
      contains-user_keys k is_allow user.id db db.user_permissions,
      contains-user_keys k is_deny user.id db db.user_permissions,
    )

-- No key is repeated among the effective permission keys.
pub resolve_effective_permission_keys-NoRepeats :
    (user : AppUser) (db : AuthDb) → NoRepeats (resolve_effective_permission_keys user db)
unfolding resolve_effective_permission_keys
resolve_effective_permission_keys-NoRepeats user db = sort_by-NoRepeats _ (distinct-NoRepeats _)

-- `require_any_permission` lets a user in exactly when the user holds one of the permissions.
pub require_any_permission_iff :
    (keys : List String) (user : AppUser) (db : AuthDb)
    → (require_any_permission keys user db ≡ ok user) ↔ (
        any
          (λ k.
            (role_grants user db k || user_has is_allow user db k)
            && not (user_has is_deny user db k))
          keys
        ≡ true)
unfolding require_any_permission
require_any_permission_iff keys user db =
    rw (← fun_ext (λ k. contains-resolve_effective_permission_keys user db k)) (ground arith)

is_active_only : (s : UserStatus) → is_active s ≡ true → s ≡ UserStatus.active
is_active_only s h = ground arith

-- The user behind a request has a session, is the active user that the session names, and belongs
-- to the configured provider.
pub get_current_app_user_sound :
    (auth_mode : String) (session : Option SessionData) (db : AuthDb) (user : AppUser)
    → get_current_app_user auth_mode session db ≡ some user
    → (s : SessionData) × (session ≡ some s)
      × (user.id ≡ s.user_id)
      × (user.status ≡ UserStatus.active)
      × (user.auth_provider ≡ auth_mode)
unfolding get_current_app_user
get_current_app_user_sound auth_mode none db user h = cc
get_current_app_user_sound auth_mode (some s) db user h =
    elim (Option-cases (find_first (λ u. u.id == s.user_id) db.users)) [
      | inl absent ↦ ground arith
      | inr (u, found) ↦ (
        s,
        refl,
        ground (arith, find_first_sound (λ u. u.id == s.user_id) db.users found),
        ground (arith, is_active_only u.status),
        ground (arith, eq_iff s.auth_provider auth_mode, eq_iff u.auth_provider s.auth_provider),
      )
    ]
