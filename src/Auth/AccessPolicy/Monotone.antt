-- ===== src/Auth/AccessPolicy/Monotone.antt =====
-- More permissions and more scopes never lose an access.
use queryops_ai.Prelude.{String, Bool, true, ◌&&◌, ◌≡◌, inl, inr, str_eq, any}
use queryops_ai.Prelude.Values.{Value, Dict, to_str}
use queryops_ai.Auth.Context.{UserAccessContext, AccessScopeContext, has_permission}
use queryops_ai.Auth.AccessPolicy.{Resource, resource_to_dict, eq_value, evaluate_access}
use queryops_ai.Auth.AccessPolicy.Decisions.{
  InScope, scope_type_of, scope_key_of, evaluate_access-allowed_iff,
}

-- `wide` holds each permission and each scope of `c`, and the global scope if `c` does.
pub record IsWider (c wide : UserAccessContext) : Type 0 where
  pub permissions : (p : String) → has_permission c p ≡ true → has_permission wide p ≡ true
  pub scopes : (q : AccessScopeContext → Bool) → any q c.scopes ≡ true → any q wide.scopes ≡ true
  pub global : c.has_global_scope ≡ true → wide.has_global_scope ≡ true

module _ {c wide : UserAccessContext} (w : IsWider c wide) where
  InScope-IsWider : (t k : Value) → InScope c t k → InScope wide t k
  InScope-IsWider t k (inl g) = inl (w.global g)
  InScope-IsWider t k (inr (inl (named, there))) =
      inr (inl (named, w.scopes (λ s. str_eq s.type (to_str t) && str_eq s.key (to_str k)) there))
  InScope-IsWider t k (inr (inr (unnamed, there))) =
      inr (inr (unnamed, w.scopes (λ s. eq_value s.type t) there))

  -- What a subject may do, a subject with at least its permissions and scopes, and the global
  -- scope if it has that, may do too.
  pub evaluate_access-IsWider :
      (action : String) (resource : Resource) (context : Dict)
      → (evaluate_access c action resource context).allowed ≡ true
      → (evaluate_access wide action resource context).allowed ≡ true
  evaluate_access-IsWider action resource context h =
      let d = resource_to_dict resource in
      let (p, named, held, open_to, (exact, keyed, scoped)) =
        (evaluate_access-allowed_iff c action resource context).0 h in
      (evaluate_access-allowed_iff wide action resource context).1 (
        p,
        named,
        w.permissions p held,
        open_to,
        (
          exact,
          keyed,
          λ e. InScope-IsWider (scope_type_of context d) (scope_key_of context d) (scoped e),
        ),
      )
