-- ===== src/Actions/Policy.antt =====
-- backend/app/action_engine/policy.py: who may request an action, and who may approve one.
pub mod Approvals
use queryops_ai.Prelude.{
  ℕ, String, ◌<>◌, Bool, true, false, not, ◌&&◌, ◌||◌, Option, none, some, List, [], ◌∷◌, ◌==◌, ltb,
  str_eq, if◌then◌else◌,
}
use queryops_ai.Prelude.Int.{ℤ, pos, negsuc, is_negative, gt_limit}
use queryops_ai.Prelude.Uuid.{Uuid}
use queryops_ai.Auth.Context.{UserAccessContext, has_permission, has_scope}

abbrev pub request_permission : String
request_permission = "can_request_action"

abbrev pub scoped_approval_permission : String
scoped_approval_permission = "can_approve_scoped_action"

abbrev pub global_approval_permission : String
global_approval_permission = "can_approve_global_action"

abbrev pub override_approval_permission : String
override_approval_permission = "can_approve_policy_override"

abbrev pub self_approval_permission : String
self_approval_permission = "can_self_approve_admin_action"

abbrev pub scoped_approval_record_limit : ℕ
scoped_approval_record_limit = 20

abbrev pub policy_allowed_reason : String
policy_allowed_reason = "The action is allowed by the current policy."

abbrev pub policy_denied_reason : String
policy_denied_reason = "The action is not authorized by the current policy."

pub record ActionPolicyDecision : Type 0 where
  pub allowed : Bool
  pub code : String
  pub reason : String
  pub required_permission : Option String
  pub matched_scopes : List String
  pub requires_admin : Bool
  pub self_approved : Bool

abbrev pub allow : String → Option String → List String → Bool → Bool → ActionPolicyDecision
allow code required_permission matched_scopes requires_admin self_approved = record {
  allowed = true;
  code = code;
  reason = policy_allowed_reason;
  required_permission = required_permission;
  matched_scopes = matched_scopes;
  requires_admin = requires_admin;
  self_approved = self_approved;
}

abbrev pub deny : String → Option String → Bool → ActionPolicyDecision
deny code required_permission requires_admin = record {
  allowed = false;
  code = code;
  reason = policy_denied_reason;
  required_permission = required_permission;
  matched_scopes = [];
  requires_admin = requires_admin;
  self_approved = false;
}

pub match_required_scope : UserAccessContext → String → String → List String
match_required_scope subject scope_type scope_key =
    if str_eq scope_type "" || str_eq scope_key ""
    then []
    else if subject.has_global_scope
    then "global:global" ∷ []
    else if has_scope subject scope_type scope_key
    then (scope_type <> (":" <> scope_key)) ∷ []
    else []

abbrev pub is_empty : List String → Bool
is_empty [] = true
is_empty (x ∷ xs) = false

unfoldable pub evaluate_action_request : UserAccessContext → String → String → ActionPolicyDecision
unfolding match_required_scope
evaluate_action_request subject scope_type scope_key =
    let matched_scopes = match_required_scope subject scope_type scope_key in
    if not (has_permission subject request_permission)
    then deny "request_permission_required" (some request_permission) false
    else if is_empty matched_scopes
    then deny "request_scope_required" (some request_permission) false
    else allow "request_allowed" (some request_permission) matched_scopes false false

-- The arguments of `evaluate_action_approval`.
pub record ApprovalQuestion : Type 0 where
  pub requester_app_user_id : Uuid
  pub scope_type : String
  pub scope_key : String
  pub record_count : ℤ
  pub crosses_scopes : Bool
  pub requires_policy_override : Bool

-- `requires_global_approval`
abbrev pub needs_global_approval : ApprovalQuestion → Bool
needs_global_approval q =
    q.crosses_scopes
    || gt_limit q.record_count scoped_approval_record_limit
    || str_eq q.scope_type "global"

unfoldable pub evaluate_action_approval :
    UserAccessContext → ApprovalQuestion → ActionPolicyDecision
unfolding match_required_scope
evaluate_action_approval subject q =
    let is_self_approval = subject.user_id == q.requester_app_user_id in
    let requires_global_approval = needs_global_approval q in
    let requires_admin = requires_global_approval || q.requires_policy_override in
    let matched_scopes = match_required_scope subject q.scope_type q.scope_key in
    if is_negative q.record_count
    then deny "invalid_record_count" none false
    else if is_self_approval && not (has_permission subject self_approval_permission)
    then deny "self_approval_permission_required" (some self_approval_permission) false
    else if q.requires_policy_override && not (has_permission subject override_approval_permission)
    then deny "override_permission_required" (some override_approval_permission) true
    else if requires_global_approval
    then (if not (has_permission subject global_approval_permission)
        then deny "global_approval_permission_required" (some global_approval_permission) true
        else if not subject.has_global_scope
        then deny "global_scope_required" (some global_approval_permission) true
        else allow "approval_allowed" (some global_approval_permission) ("global:global" ∷ [])
            requires_admin is_self_approval)
    else if not (has_permission subject scoped_approval_permission)
    then deny "scoped_approval_permission_required" (some scoped_approval_permission) false
    else if is_empty matched_scopes
    then deny "approval_scope_required" (some scoped_approval_permission) false
    else allow "approval_allowed" (some scoped_approval_permission) matched_scopes requires_admin
        is_self_approval
