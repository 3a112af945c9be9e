-- ===== src/Actions/Lifecycle/Reject.antt =====
-- `ApprovalLifecycleService.reject`
use queryops_ai.Prelude.{
  ℕ, String, Bool, true, false, not, ◌&&◌, ◌||◌, Option, none, some, [], ◌∷◌, ◌==◌, if◌then◌else◌,
}
use queryops_ai.Prelude.Uuid.{Uuid, uuid_str}
use queryops_ai.Prelude.Json
use queryops_ai.Auth.Permissions.{AppUser}
use queryops_ai.Auth.Context.{UserAccessContext}
use queryops_ai.Actions.Rows.{
  ActionRequest, ApprovalRequest, ActionStatus, ApprovalStatus, AuditLog, Notification,
  is_pending_approval, is_pending, status_value,
}
use queryops_ai.Actions.Presentation.{action_presentation}
use queryops_ai.Actions.Audit.{build_action_audit_log}
use queryops_ai.Actions.Notifications.{approval_decision, build_action_notification}
use queryops_ai.Actions.Session.{
  Session, update_where, rollback, save_action, save_approval, add_audits, add_notifications,
}
use queryops_ai.Actions.Lifecycle.Base.{
  Outcome, returned, raised, crashed, ServiceError, not_found, already_processed, expired_error,
  ahead, locked_pair, is_pending_expired, require_pending, statuses, active_notifications,
  commit_or_fail,
}
use queryops_ai.Actions.Lifecycle.Expire.{expire_one}

pub record RejectReply : Type 0 where
  pub approval_id : String
  pub action_request_id : String
  pub status : String
  pub decided_at : String

abbrev pub rejected_action : ActionRequest → ActionRequest
rejected_action a = record a { status = ActionStatus.rejected }

abbrev pub rejected_approval : AppUser → String → ℕ → ApprovalRequest → ApprovalRequest
rejected_approval user reason now p = record p {
  status = ApprovalStatus.rejected;
  decided_by_user_id = some user.id;
  decision_reason = some reason;
  decided_at = some now;
}

unfoldable pub rejection_audit : AppUser → ActionRequest → ApprovalRequest → AuditLog
rejection_audit user a p = build_action_audit_log user a (some p) (record {
  event_type = "action_rejected";
  action = "reject";
  status = status_value ActionStatus.rejected;
  summary = (action_presentation a.action_type).rejected_summary;
  metadata = Json.end;
  before_state = statuses ActionStatus.pending_approval ApprovalStatus.pending;
  after_state = statuses ActionStatus.rejected ApprovalStatus.rejected;
  severity = "info";
  self_approved = none;
})

unfoldable pub rejection_notification : AppUser → ActionRequest → ApprovalRequest → Notification
rejection_notification user a p =
    build_action_notification a.requested_by_app_user_id user.id "action_rejected"
      "Action request rejected" (action_presentation a.action_type).rejected_body a p

module _ {D : Type 0} (user : AppUser) (now : ℕ) where
  -- The branch of a pending pair that is expired: what it raises, unless the commit failed.
  abbrev pub after_expiry : {A : Type 0} → Outcome Bool × Session D → Outcome A × Session D
  after_expiry (returned true, s) = (raised expired_error, s)
  after_expiry (returned false, s) = (raised already_processed, s)
  after_expiry (raised e, s) = (raised e, s)
  after_expiry (crashed, s) = (crashed, s)

  -- `if pending and _expired: _expire_one …; raise`, shared by `reject` and `approve`
  unfoldable pub expire_and_raise :
      {A : Type 0} → ActionRequest → ApprovalRequest → Session D → Outcome A × Session D
  expire_and_raise a p s = after_expiry (expire_one user a p now s)

  module _ (iso : ℕ → String) (reason : String) where
    -- From the two updates on.
    unfoldable pub reject_pending :
        ActionRequest → ApprovalRequest → Session D → Outcome RejectReply × Session D
    reject_pending a p s =
        let (actions, changed) =
          update_where s.working.actions a.id
            (λ (r : ActionRequest). is_pending_approval r.status && ahead r.expires_at now)
            rejected_action in
        let (approvals, decided) =
          update_where s.working.approvals p.id
            (λ (r : ApprovalRequest). is_pending r.status && ahead r.expires_at now)
            (rejected_approval user reason now) in
        let updated : Session D = record s {
          working = record s.working { actions = actions; approvals = approvals };
        } in
        let a' = rejected_action a in
        let p' = rejected_approval user reason now p in
        if not (changed == 1) || not (decided == 1)
        then (raised already_processed, rollback updated)
        else commit_or_fail "The approval decision could not be saved safely."
            (record {
              approval_id = uuid_str p.id;
              action_request_id = uuid_str a.id;
              status = status_value ActionStatus.rejected;
              decided_at = iso now;
            })
            (add_notifications
              (active_notifications s.working.users (rejection_notification user a' p' ∷ []))
              (add_audits (rejection_audit user a' p' ∷ [])
                (save_approval p' (save_action a' updated))))

    abbrev pub reject_checked :
        ActionRequest
        → ApprovalRequest
        → Session D
        → Option ServiceError
        → Outcome RejectReply × Session D
    reject_checked a p s (some e) = (raised e, s)
    reject_checked a p s none = reject_pending a p s

    unfoldable pub reject_pair :
        UserAccessContext
        → ActionRequest
        → ApprovalRequest
        → Session D
        → Outcome RejectReply × Session D
    reject_pair context a p s =
        if not (approval_decision a context).allowed
        then (raised not_found, s)
        else if is_pending_expired a p now
        then expire_and_raise a p s
        else reject_checked a p s (require_pending a p now)

    -- `context` is `build_user_access_context(current_user, db)`.
    unfoldable pub reject : UserAccessContext → Uuid → Session D → Outcome RejectReply × Session D
    reject context approval_id s = elim (locked_pair s.working approval_id) [
      | none ↦ (raised not_found, s)
      | some (a, p) ↦ reject_pair context a p s
    ]
