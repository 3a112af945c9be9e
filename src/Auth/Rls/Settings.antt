-- ===== src/Auth/Rls/Settings.antt =====
-- What the row-level security settings of a request say.
use queryops_ai.Prelude.{
  String, Bool, false, not, ◌&&◌, none, some, List, [], ◌∷◌, ◌++◌, ◌≡◌, refl, ◌∙◌, str_eq,
  if◌then◌else◌, any, contains, arith, Bool-cases, inl, inr,
}
use mathlib.Core.List.{reverse}
use queryops_ai.Prelude.Uuid.{uuid_str}
use queryops_ai.Prelude.Results.{ok, err}
use queryops_ai.Prelude.Sorting.{distinct, contains-distinct}
use queryops_ai.Prelude.Values.{Dict}
use queryops_ai.Auth.Context.{AccessScopeContext, UserAccessContext}
use queryops_ai.Auth.AccessPolicy.{
  Resource, evaluate_access, authorize_resource_access, require_access_decision,
  authorization_denied_message,
}
use queryops_ai.Auth.Rls.{
  RlsContext, Setting, department_keys, scoped_context, build_rls_context, rls_settings,
  set_rls_context, prepare_scoped_data_access,
}

-- The scope is a department with this id.
abbrev pub is_department : String → AccessScopeContext → Bool
is_department key scope =
    str_eq scope.type "department"
    && (elim scope.department_id [ none ↦ false | some d ↦ str_eq key (uuid_str d) ])

contains-department_keys :
    (key : String) (scopes : List AccessScopeContext)
    → contains key (department_keys scopes) ≡ any (is_department key) scopes
unfolding department_keys
contains-department_keys key [] = refl
contains-department_keys key (s ∷ scopes) = ground (arith, contains-department_keys key scopes)

scoped_context-scope_keys :
    (c : UserAccessContext) (keys : List String)
    → ((scoped_context c keys).scope_keys ≡ keys)
      × ((scoped_context c keys).has_global_scope ≡ false)
scoped_context-scope_keys c [] = (refl, refl)
scoped_context-scope_keys c (k ∷ ks) = (refl, refl)

-- The database sees the viewer's global flag as it is, and beside it exactly the departments that
-- are assigned to the viewer, or none where the flag is set.
pub build_rls_context_exact :
    (c : UserAccessContext) (key : String)
    → ((build_rls_context c).has_global_scope ≡ c.has_global_scope)
      × (contains key (build_rls_context c).scope_keys
          ≡ (not c.has_global_scope && any (is_department key) c.scopes))
unfolding build_rls_context
build_rls_context_exact c key =
    let keys = distinct (department_keys c.scopes) in
    let fields = scoped_context-scope_keys c keys in
    let known : contains key keys ≡ any (is_department key) c.scopes =
      contains-distinct key (department_keys c.scopes) ∙ contains-department_keys key c.scopes in
    elim (Bool-cases c.has_global_scope) [
      | inl e ↦ rw e (refl, refl)
      | inr e ↦ rw e (fields.1, rw fields.0 known)
    ]

-- Each setting is accepted, so the settings of a context are all executed, in order.
set_rls_context-rls_settings :
    (done : List Setting) (r : RlsContext)
    → (executed : List Setting) × (set_rls_context done r ≡ some executed)
      × (executed ≡ reverse (rls_settings r) ++ done)
unfolding set_rls_context
set_rls_context-rls_settings done r = (reverse (rls_settings r) ++ done, refl, refl)

-- A denied access raises FORBIDDEN and executes nothing. An allowed one executes the five settings
-- of its own subject on the transaction, and nothing else.
pub prepare_scoped_data_access_lem :
    (done : List Setting) (subject : UserAccessContext) (action : String) (resource : Resource)
    (context : Dict)
    → let decision = evaluate_access subject action resource context in
      prepare_scoped_data_access done subject action resource context ≡ (
        if decision.allowed
        then (ok decision, some (reverse (rls_settings (build_rls_context subject)) ++ done))
        else (
          err (record {
            code = "FORBIDDEN";
            message = authorization_denied_message;
            status_code = 403;
          }),
          some done,
        ))
unfolding prepare_scoped_data_access authorize_resource_access require_access_decision
prepare_scoped_data_access_lem done subject action resource context =
    let executed = set_rls_context-rls_settings done (build_rls_context subject) in
    ground (arith, executed.1, executed.2)
