-- ===== src/Actions/Tests.antt =====
-- One action with one approval, on which the theorems of Actions are run.
mod Lifecycle
mod Policies
mod Requests
mod Success
use queryops_ai.Prelude.{
  ℕ, String, Bool, true, false, not, ◌&&◌, ◌||◌, Option, none, some, List, [], ◌∷◌, ◌++◌, ◌==◌,
  str_eq, any, contains_id, if◌then◌else◌, ◌≡◌, refl, ap, sym, ◌∙◌, ◌⊎◌, inl, inr, arith, ==_iff,
}
use queryops_ai.Prelude.Uuid.{Uuid}
use queryops_ai.Prelude.Int.{pos}
use queryops_ai.Prelude.Json
use queryops_ai.Auth.Permissions.{AppUser, UserStatus, is_active}
use queryops_ai.Auth.Context.{AccessScopeContext, UserAccessContext, has_permission}
use queryops_ai.Actions.Policy.{
  ApprovalQuestion, request_permission, needs_global_approval, is_empty, evaluate_action_request,
  evaluate_action_approval,
}
use queryops_ai.Actions.Policy.Approvals.{
  covers, may_approve, evaluate_action_request-allowed, evaluate_action_approval-allowed,
  evaluate_action_approval-flags,
}
use queryops_ai.Actions.Rows.{
  ActionRequest, ApprovalRequest, ActionType, ActionStatus, ApprovalStatus, Member, Notification,
  Tables,
}
use queryops_ai.Actions.Notifications.{approval_question, approval_decision, eligible_approvers}
use queryops_ai.Actions.Notifications.Recipients.{any-eligible_approvers}
use queryops_ai.Actions.Session.{Session, put, start}
use queryops_ai.Actions.Requests.{Surroundings}
use queryops_ai.Actions.Lifecycle.Base.{
  Outcome, returned, raised, not_found, already_processed, passed, links_to, locked_pair,
  commit_or_fail,
}
use queryops_ai.Actions.Lifecycle.Expire.{expire_one}
use queryops_ai.Actions.Lifecycle.Reject.{RejectReply, reject}
use queryops_ai.Actions.Lifecycle.Handlers.{
  Revalidation, Handler, Engine, no_repeats, is_stable_execution_set,
}
use queryops_ai.Actions.Lifecycle.Complete.{same_key, dedupe_notifications}
use queryops_ai.Actions.Lifecycle.Dedupe.{no_two, dedupe_notifications-exact}
use queryops_ai.Actions.Lifecycle.Failure.{commit_or_raise, fail_pair}
use queryops_ai.Actions.Lifecycle.Approve.{ApproveReply, approve}
use queryops_ai.Actions.Lifecycle.Steps.{IsKeyed, IsPendingPair, Moves}
use queryops_ai.Actions.Lifecycle.Refines.Locks.{both_pending}
use queryops_ai.Actions.Lifecycle.Refines.Expiry.{expired_tables, expire_one_lem}
use queryops_ai.Actions.Lifecycle.Refines.Failing.{failed_tables, fail_pair_lem}
use queryops_ai.Actions.Lifecycle.Refines.Rejection.{reject_outcome, reject_lem, reject-Moves}
use queryops_ai.Actions.Lifecycle.Refines.Attempting.{Settles}
use queryops_ai.Actions.Lifecycle.Refines.Approval.{approve-Settles}
use queryops_ai.Actions.Lifecycle.Invariant.{is_coherent, IsCoherent, put-cases}
use queryops_ai.Actions.Lifecycle.Service.{
  IsDecided, IsFair, Serves, idle, rejecting, approving, Serves-IsCoherent, Serves-IsDecided,
}

abbrev sales : AccessScopeContext
sales = record {
  id = 20;
  type = "department";
  key = "sales";
  display_name = "Sales";
  access_level = "write";
  is_default = true;
  department_id = some 30;
}

abbrev boss : AppUser
boss = record { id = 2; role_id = some 8; status = UserStatus.active; auth_provider = "oidc" }

abbrev boss_context : UserAccessContext
boss_context = record {
  user_id = 2;
  role = some "manager";
  permissions = "can_approve_scoped_action" ∷ "can_request_action" ∷ [];
  scopes = sales ∷ [];
  default_scope = some sales;
  has_global_scope = false;
  subject_attributes = record {
    role = some "manager";
    permissions = "can_approve_scoped_action" ∷ "can_request_action" ∷ [];
    scope_types = "department" ∷ [];
    has_global_scope = false;
    auth_provider = "oidc";
  };
}

abbrev action : ActionStatus → ActionRequest
action s = record {
  id = 5;
  action_type = ActionType.reclaim_unused_license;
  requested_by_app_user_id = 1;
  department_id = some 30;
  scope_id = some 20;
  scope_type = some "department";
  scope_key = some "sales";
  preview_json = Json.obj Json.end;
  policy_flags_json = Json.obj Json.end;
  skipped_records_json = Json.obj Json.end;
  status = s;
  priority = "normal";
  reason = some "Unused.";
  requires_admin = false;
  record_count = 3;
  skipped_count = 0;
  failure_reason_user_safe = none;
  failure_reason_internal = none;
  preview_generated_at = some 10;
  preview_expires_at = some 40;
  submitted_at = some 20;
  approved_at = none;
  executed_at = none;
  completed_at = none;
  expires_at = some 100;
}

abbrev approval : ApprovalStatus → ApprovalRequest
approval s = record {
  id = 6;
  requester_user_id = some 1;
  query_run_id = none;
  action_request_id = some 5;
  request_type = "reclaim_unused_license";
  title = "Reclaim unused licenses";
  description = some "Unused.";
  target_type = some "action_request";
  target_id = some 5;
  payload = Json.obj Json.end;
  policy_snapshot = Json.obj Json.end;
  status = s;
  decided_by_user_id = none;
  decision_reason = none;
  decided_at = none;
  required_approver_role = none;
  expires_at = some 100;
}

-- The handlers' data is the list of the licenses in use.
abbrev tables : ActionStatus → ApprovalStatus → Tables (List Uuid)
tables s q = record {
  actions = put (λ _. none) 5 (action s);
  approvals = put (λ _. none) 6 (approval q);
  approval_keys = 6 ∷ [];
  users = record { user = boss; context = boss_context } ∷ [];
  audits = [];
  notifications = [];
  domain = 40 ∷ 41 ∷ [];
}

abbrev waiting : Tables (List Uuid)
waiting = tables ActionStatus.pending_approval ApprovalStatus.pending

abbrev finished : Tables (List Uuid)
finished = tables ActionStatus.completed ApprovalStatus.approved

abbrev licenses : List Uuid → Revalidation
licenses ids = record {
  kind = ActionType.reclaim_unused_license;
  executable_ids = ids;
  skipped_records = [];
  crosses_scopes = false;
  requires_policy_override = false;
  safe_flags = Json.obj Json.end;
}

-- Reclaims every license.
abbrev reclaim : Handler (List Uuid)
reclaim = record {
  revalidate = λ ids _ _ _. some (licenses ids);
  execute = λ ids _ _ r _. some (r.executable_ids, []);
}

abbrev engine : Engine (List Uuid)
engine = record {
  validates = λ _. true;
  registry = λ _. some reclaim;
  lock = λ ids _. some ids;
  meanwhile = λ t. t;
}

engine-IsFair : IsFair engine.meanwhile
engine-IsFair = record { coherent = λ b c. c; keyed = λ b c. c; decided = λ b j p d. d }

abbrev iso : ℕ → String
iso _ = "2026-01-01T00:00:00Z"

only_row :
    {A : Type 0} (k : Uuid) (r : A) (j : Uuid) (x : A)
    → put (λ _. none) k r j ≡ some x
    → (j ≡ k) × (x ≡ r)
only_row k r j x h = elim (put-cases (λ _. none) k r j x h) [
  | inl same ↦ same
  | inr (other, absent) ↦ cc
]

tables-IsKeyed : (s : ActionStatus) (q : ApprovalStatus) → IsKeyed (tables s q)
tables-IsKeyed s q = record {
  actions = λ k a h. let (at, e) = only_row 5 (action s) k a h in ap ActionRequest.id e ∙ sym at;
  approvals =
      λ k p h. let (at, e) = only_row 6 (approval q) k p h in ap ApprovalRequest.id e ∙ sym at;
}

tables-IsCoherent :
    (s : ActionStatus) (q : ApprovalStatus) → is_coherent s q ≡ true → IsCoherent (tables s q)
tables-IsCoherent s q fits = record {
  keyed = tables-IsKeyed s q;
  listed = λ k p at. rw ((only_row 6 (approval q) k p at).0) refl;
  one_each = λ j k p r i at_j at_k _ _.
      (only_row 6 (approval q) j p at_j).0 ∙ sym (only_row 6 (approval q) k r at_k).0;
  together = λ j i p a at_j at_i _.
      rw ((only_row 5 (action s) i a at_i).1, (only_row 6 (approval q) j p at_j).1) fits;
}

waiting-IsPendingPair :
    IsPendingPair waiting (action ActionStatus.pending_approval) (approval ApprovalStatus.pending)
waiting-IsPendingPair = record {
  pair = record { found_action = refl; found_approval = refl; linked = refl };
  action_pending = refl;
  approval_pending = refl;
}

abbrev waiting_action : ActionRequest
waiting_action = action ActionStatus.pending_approval

abbrev waiting_approval : ApprovalRequest
waiting_approval = approval ApprovalStatus.pending

abbrev requester : AppUser
requester = record { id = 1; role_id = some 9; status = UserStatus.active; auth_provider = "oidc" }

abbrev requester_context : UserAccessContext
requester_context = record {
  user_id = 1;
  role = some "analyst";
  permissions = "can_request_action" ∷ [];
  scopes = sales ∷ [];
  default_scope = some sales;
  has_global_scope = false;
  subject_attributes = record {
    role = some "analyst";
    permissions = "can_request_action" ∷ [];
    scope_types = "department" ∷ [];
    has_global_scope = false;
    auth_provider = "oidc";
  };
}

abbrev around : Surroundings (List Uuid)
around = record {
  is_registered = λ _. true;
  validates = λ _. true;
  safe_preview = λ a. a.preview_json;
  policy_details = λ _. Json.obj Json.end;
  scope_name = λ _. some "Sales";
  meanwhile = λ t. t;
  iso = iso;
}

-- A draft, and no approval yet.
abbrev drafted : Tables (List Uuid)
drafted = record waiting {
  actions = put (λ _. none) 5 (action ActionStatus.draft_preview);
  approvals = λ _. none;
  approval_keys = [];
}

drafted-IsCoherent : IsCoherent drafted
drafted-IsCoherent = record {
  keyed = record {
    actions = λ k a h.
        let (at, e) = only_row 5 (action ActionStatus.draft_preview) k a h in
        ap ActionRequest.id e ∙ sym at;
    approvals = λ k p h. cc;
  };
  listed = λ k p h. cc;
  one_each = λ j k p r i at_j at_k _ _. cc;
  together = λ j i p a at_j at_i _. cc;
}
