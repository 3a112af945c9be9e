-- ===== src/Auth/Context/Scopes.antt =====
-- Where the scopes of a context come from, and which one is the default.
use queryops_ai.Prelude.{
  String, Bool, true, false, ◌&&◌, none, some, List, [], ◌∷◌, ◌==◌, ◌≡◌, refl, ◌∙◌, any, any-append,
  find_first, find_first_sound, arith, Bool-cases, inl, inr,
}
use queryops_ai.Prelude.Uuid.{Uuid}
use queryops_ai.Prelude.Sorting.{any-sort_by}
use queryops_ai.Auth.Permissions.{AppUser, AuthDb}
use queryops_ai.Auth.Context.{
  AccessScope, AccessScopeContext, UserAccessScope, scope_context, scope_le, linked_scopes,
  user_scopes, load_scope_contexts, is_global, first_or_default, build_user_access_context,
}

module _ (p : AccessScopeContext → Bool) where
  -- One of the scope rows that the link names passes `p`.
  abbrev pub link_reaches : List AccessScope → UserAccessScope → Bool
  link_reaches scopes link =
      any (λ (scope : AccessScope). scope.id == link.scope_id && p (scope_context link scope))
        scopes

  any-linked_scopes :
      (link : UserAccessScope) (scopes : List AccessScope)
      → any p (linked_scopes link scopes) ≡ link_reaches scopes link
  unfolding linked_scopes
  any-linked_scopes link [] = refl
  any-linked_scopes link (s ∷ scopes) = ground (arith, any-linked_scopes link scopes)

  any-user_scopes :
      (u : Uuid) (links : List UserAccessScope) (scopes : List AccessScope)
      → any p (user_scopes u links scopes)
        ≡ any (λ link. link.user_id == u && link_reaches scopes link) links
  unfolding user_scopes
  any-user_scopes u [] scopes = refl
  any-user_scopes u (link ∷ links) scopes = ground (
    arith,
    any-append p (linked_scopes link scopes) (user_scopes u links scopes),
    any-linked_scopes link scopes,
    any-user_scopes u links scopes,
  )

-- Whatever a test looks for among the loaded scopes, it finds exactly the scopes that a link row of
-- this very user assigns. The database's text order plays no part.
pub any-load_scope_contexts :
    (text_le : String → String → Bool) (p : AccessScopeContext → Bool) (user : AppUser)
    (links : List UserAccessScope) (scopes : List AccessScope)
    → any p (load_scope_contexts text_le user links scopes)
      ≡ any (λ link. link.user_id == user.id && link_reaches p scopes link) links
unfolding load_scope_contexts
any-load_scope_contexts text_le p user links scopes =
    any-sort_by (scope_le text_le) p (user_scopes user.id links scopes)
    ∙ any-user_scopes p user.id links scopes

-- The global flag of a built context is set exactly if a link row of the user assigns a scope whose
-- type and key are both "global".
pub has_global_scope_iff :
    (text_le : String → String → Bool) (user : AppUser) (db : AuthDb) (links : List UserAccessScope)
    (scopes : List AccessScope)
    → let c = build_user_access_context user db (load_scope_contexts text_le user links scopes) in
      c.has_global_scope
      ≡ any (λ link. link.user_id == user.id && link_reaches is_global scopes link) links
unfolding build_user_access_context
has_global_scope_iff text_le user db links scopes =
    any-load_scope_contexts text_le is_global user links scopes

find_first-any :
    (p : AccessScopeContext → Bool) (scopes : List AccessScopeContext)
    → any p scopes ≡ true
    → (s : AccessScopeContext) × (find_first p scopes ≡ some s)
find_first-any p [] h = cc
find_first-any p (s ∷ scopes) h = elim (Bool-cases (p s)) [
  | inl hit ↦ (s, rw hit)
  | inr miss ↦ let (t, found) = find_first-any p scopes (rw miss at h) in (t, rw miss found)
]

find_first-none :
    (p : AccessScopeContext → Bool) (scopes : List AccessScopeContext)
    → any p scopes ≡ false
    → find_first p scopes ≡ none
find_first-none p [] h = refl
find_first-none p (s ∷ scopes) h = ground (arith, find_first-none p scopes)

-- A user with a scope that is flagged as default has a flagged default scope. A user without one
-- has the first scope as the default, and none if there is no scope.
pub default_scope_cases :
    (user : AppUser) (db : AuthDb) (scopes : List AccessScopeContext)
    → let c = build_user_access_context user db scopes in
      (any (λ s. s.is_default) scopes ≡ true
        → (s : AccessScopeContext) × (c.default_scope ≡ some s) × (s.is_default ≡ true))
      × (any (λ s. s.is_default) scopes ≡ false → c.default_scope ≡ first_or_default none scopes)
unfolding build_user_access_context
default_scope_cases user db scopes = (
  (λ h.
      let (s, found) = find_first-any (λ s. s.is_default) scopes h in
      (s, rw found, find_first_sound (λ s. s.is_default) scopes found)),
  λ h. rw (find_first-none (λ s. s.is_default) scopes h),
)
