-- ===== src/Auth/AccessPolicy/Decisions.antt =====
-- What an allowed decision guarantees.
use queryops_ai.Prelude.{
  String, true, false, Option, none, some, List, [], ◌∷◌, map, ◌≡◌, refl, ◌⊎◌, inl, inr, ◌↔◌, any,
  select, arith, Bool-cases,
}
use mathlib.Core.Option.{some-injective}
use queryops_ai.Prelude.Values
use queryops_ai.Prelude.Values.{Value, Dict, truthy, or_value, to_str}
use queryops_ai.Auth.Context.{AccessScopeContext, UserAccessContext, has_permission, has_scope}
use queryops_ai.Auth.AccessPolicy.{
  scope_label, Resource, is_exact_scope_action, is_scoped_data_action, is_query_action,
  resource_to_dict, eq_value, by_type, required_permission_of, resource_is_explicitly_not_queryable,
  evaluate_scope, evaluate_checks, evaluate_access,
}

-- The scope value that a decision goes by: the runtime context's, or else the resource's.
abbrev pub scope_type_of : Dict → Dict → Value
scope_type_of context d = or_value (Values.get context "scope_type") (Values.get d "scope_type")

abbrev pub scope_key_of : Dict → Dict → Value
scope_key_of context d = or_value (Values.get context "scope_key") (Values.get d "scope_key")

-- What a subject with the permission still needs at the scope: a global assignment, an assignment
-- to the very scope, or, where no key is named, one of the scope's type.
abbrev pub InScope : UserAccessContext → Value → Value → Type 0
InScope subject scope_type scope_key =
    (subject.has_global_scope ≡ true)
    ⊎ ((truthy scope_key ≡ true)
        × (has_scope subject (to_str scope_type) (to_str scope_key) ≡ true))
    ⊎ ((truthy scope_key ≡ false)
        × (any (λ scope. eq_value scope.type scope_type) subject.scopes ≡ true))

-- What the scope rules ask for, written by conditions and not by the order of the checks.
abbrev pub MeetsScope : UserAccessContext → String → Value → Value → Type 0
MeetsScope subject action scope_type scope_key =
    (is_exact_scope_action action ≡ true → (truthy scope_type ≡ true) × (truthy scope_key ≡ true))
    × (truthy scope_type ≡ true → is_scoped_data_action action ≡ true → truthy scope_key ≡ true)
    × (truthy scope_type ≡ true → InScope subject scope_type scope_key)

module _ (subject : UserAccessContext) (action : String) (d : Dict) (required : Option String) where
  by_type-allowed :
      (t : Value) (scopes : List AccessScopeContext)
      → (by_type subject action d required (
          map
            (λ scope. scope_label scope.type scope.key)
            (select (λ scope. eq_value scope.type t) scopes))).allowed
        ≡ any (λ scope. eq_value scope.type t) scopes
  by_type-allowed t [] = refl
  by_type-allowed t (s ∷ scopes) = elim (Bool-cases (eq_value s.type t)) [
    | inl hit ↦ rw hit
    | inr miss ↦ rw miss (by_type-allowed t scopes)
  ]

  evaluate_scope-MeetsScope :
      (t k : Value)
      → (evaluate_scope subject action d required t k).allowed ≡ true
      → MeetsScope subject action t k
  unfolding evaluate_scope
  evaluate_scope-MeetsScope t k h = (
    λ e. (ground arith, ground arith),
    λ e f. ground arith,
    λ e. ground (arith, by_type-allowed t subject.scopes),
  )

  evaluate_scope_of_MeetsScope :
      (t k : Value)
      → MeetsScope subject action t k
      → (evaluate_scope subject action d required t k).allowed ≡ true
  unfolding evaluate_scope
  evaluate_scope_of_MeetsScope t k h = ground (arith, by_type-allowed t subject.scopes)

-- What is asked for, given the permission that the policy names.
abbrev pub MeetsChecks : UserAccessContext → String → Dict → Option String → Value → Value → Type 0
MeetsChecks subject action d required t k =
    (p : String) × (required ≡ some p)
    × (has_permission subject p ≡ true)
    × (is_query_action action ≡ true → resource_is_explicitly_not_queryable d ≡ false)
    × MeetsScope subject action t k

module _ (subject : UserAccessContext) (action : String) (d : Dict) where
  evaluate_checks-MeetsChecks :
      (required : Option String) (t k : Value)
      → (evaluate_checks subject action d required t k).allowed ≡ true
      → MeetsChecks subject action d required t k
  unfolding evaluate_checks
  evaluate_checks-MeetsChecks none t k h = cc
  evaluate_checks-MeetsChecks (some p) t k h = (
    p,
    refl,
    ground arith,
    λ e. ground arith,
    evaluate_scope-MeetsScope subject action d (some p) t k (ground arith),
  )

  evaluate_checks_of_MeetsChecks :
      (required : Option String) (t k : Value)
      → MeetsChecks subject action d required t k
      → (evaluate_checks subject action d required t k).allowed ≡ true
  unfolding evaluate_checks
  evaluate_checks_of_MeetsChecks none t k (p, e, held, open_to, scope) = cc
  evaluate_checks_of_MeetsChecks (some q) t k (p, e, held, open_to, scope) =
      let held' : has_permission subject q ≡ true = cc (some-injective q p e, held) in
      ground (arith, evaluate_scope_of_MeetsScope subject action d (some q) t k scope)

-- An action is allowed exactly when the policy names a permission for it, the subject holds that
-- permission, a query action is not on a resource marked as not queryable, and the scope rules
-- are met: an exact-scope action names a scope type and key, a scoped-data action on a scoped
-- resource names a key, and on a scoped resource the subject has the global scope, the named
-- scope, or (where no key is named) a scope of the type.
pub evaluate_access-allowed_iff :
    (subject : UserAccessContext) (action : String) (resource : Resource) (context : Dict)
    → let d = resource_to_dict resource in
      ((evaluate_access subject action resource context).allowed ≡ true)
      ↔ MeetsChecks subject action d
          (required_permission_of action)
          (scope_type_of context d)
          (scope_key_of context d)
unfolding evaluate_access
evaluate_access-allowed_iff subject action resource context = (
  evaluate_checks-MeetsChecks subject action _ _ _ _,
  evaluate_checks_of_MeetsChecks subject action _ _ _ _,
)
