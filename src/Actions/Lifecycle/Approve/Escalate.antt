-- ===== src/Actions/Lifecycle/Approve/Escalate.antt =====
-- `_persist_escalation`, what an approval answers, and how its guarded part ends.
use queryops_ai.Prelude.{
  ℕ, String, Bool, true, false, not, ◌&&◌, Option, none, some, List, [], ◌∷◌, ◌==◌, str_eq, any,
  select, if◌then◌else◌,
}
use queryops_ai.Prelude.Uuid.{Uuid}
use queryops_ai.Prelude.Json
use queryops_ai.Prelude.Json.{Fields}
use queryops_ai.Auth.Permissions.{AppUser}
use queryops_ai.Auth.Context.{UserAccessContext}
use queryops_ai.Actions.Policy.{ActionPolicyDecision}
use queryops_ai.Actions.Rows.{
  ActionRequest, ApprovalRequest, ActionStatus, AuditLog, Notification, status_value,
}
use queryops_ai.Actions.Audit.{build_action_audit_log}
use queryops_ai.Actions.Notifications.{eligible_approvers, build_pending_approval_notifications}
use queryops_ai.Actions.Session.{Session, save_action, save_approval, add_audits, add_notifications}
use queryops_ai.Actions.Lifecycle.Base.{
  Outcome, returned, raised, crashed, ServiceError, forbidden, dict_of, commit_or_fail,
}
use queryops_ai.Actions.Lifecycle.Handlers.{Revalidation, Engine}

pub record ApproveReply : Type 0 where
  pub approval_id : String
  pub action_request_id : String
  pub status : String
  pub executed_records_count : ℕ
  pub skipped_records_count : ℕ
  pub self_approved : Bool
  pub override_used : Bool
  pub completed_at : String

abbrev pub override_required : ServiceError
override_required = record {
  code = "POLICY_OVERRIDE_REQUIRED";
  message = "Current policy requires an authorized override approver.";
  status_code = 422;
}

abbrev pub escalated_policy : Revalidation → Fields → Fields
escalated_policy r policy =
    Json.set
      (Json.set
        (Json.set (Json.set policy "revalidation_flags" r.safe_flags) "revalidation_requires_admin"
          (Json.bool true))
        "revalidation_requires_policy_override" (Json.bool true))
      "revalidation_crosses_scopes" (Json.bool r.crosses_scopes)

abbrev pub admin_state : Bool → Json.Json
admin_state b = Json.obj (Json.field "requires_admin" (Json.bool b) Json.end)

unfoldable pub escalation_audit : AppUser → ActionRequest → ApprovalRequest → AuditLog
escalation_audit user a p = build_action_audit_log user a (some p) (record {
  event_type = "action_approval_escalated";
  action = "escalate";
  status = status_value ActionStatus.pending_approval;
  summary = "Current policy requires an authorized override approver.";
  metadata = Json.field "escalation_reason" (Json.str "policy_override_required") Json.end;
  before_state = admin_state false;
  after_state = admin_state true;
  severity = "warning";
  self_approved = none;
})

-- The user has been told of this pending request.
abbrev pub was_notified : List Notification → Uuid → Uuid → Bool
was_notified sent action_id u =
    any
      (λ (n : Notification).
        str_eq n.notification_type "action_pending_approval"
        && str_eq n.related_resource_type "action_request"
        && n.related_resource_id == action_id
        && u == n.recipient_user_id)
      sent

-- How the guarded part of `approve` ends: with a result or an `ApprovalServiceError`, or with
-- another exception in one of its two phases.
pub data Attempt (D : Type 0) : Type 0 where
  settled : Outcome ApproveReply → Session D → Attempt D
  broke : String → Session D → Attempt D

-- The next step on what a call returned; an exception breaks the attempt.
abbrev pub or_broke : {D X : Type 0} → Option X → String → Session D → (X → Attempt D) → Attempt D
or_broke none category s next = broke category s
or_broke (some x) category s next = next x

module _ {D : Type 0} (iso : ℕ → String) (engine : Engine D) (user : AppUser)
    (context : UserAccessContext) (reason : String) (now : ℕ) where
  -- `_persist_escalation`, with the policy column as a dict.
  unfoldable pub persist_escalation :
      ActionRequest
      → ApprovalRequest
      → Revalidation
      → Fields
      → Session D
      → Outcome (Unit {0}) × Session D
  persist_escalation a p r policy s =
      let a' : ActionRequest = record a {
        policy_flags_json = Json.obj (escalated_policy r policy);
        requires_admin = true;
      } in
      let p' : ApprovalRequest = record p { required_approver_role = some "admin" } in
      let pending =
        build_pending_approval_notifications iso a' p' (eligible_approvers s.working.users a') in
      commit_or_fail "The approval escalation could not be saved safely." tt (
        add_notifications
          (select
            (λ (n : Notification).
              not (was_notified s.working.notifications a.id n.recipient_user_id))
            pending)
          (add_audits (escalation_audit user a' p' ∷ []) (save_approval p' (save_action a' s))))

  abbrev pub after_escalation : Outcome (Unit {0}) × Session D → Attempt D
  after_escalation (returned _, s) = settled (raised override_required) s
  after_escalation (raised e, s) = settled (raised e) s
  after_escalation (crashed, s) = broke "validation_failed" s

  -- The decision denies: escalate where an override is what is missing.
  unfoldable pub denied :
      ActionRequest → ApprovalRequest → Revalidation → ActionPolicyDecision → Session D → Attempt D
  denied a p r decision s =
      if r.requires_policy_override && str_eq decision.code "override_permission_required"
      then or_broke (dict_of a.policy_flags_json) "validation_failed" s
          (λ policy. after_escalation (persist_escalation a p r policy s))
      else settled (raised forbidden) s
