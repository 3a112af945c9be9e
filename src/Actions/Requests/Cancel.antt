-- ===== src/Actions/Requests/Cancel.antt =====
-- `ActionLifecycleService.cancel_request`
use queryops_ai.Prelude.{ℕ, String, not, ◌&&◌, Option, none, some, [], ◌∷◌, if◌then◌else◌}
use queryops_ai.Prelude.Uuid.{Uuid, uuid_str}
use queryops_ai.Prelude.Json
use queryops_ai.Auth.Permissions.{AppUser}
use queryops_ai.Auth.Context.{UserAccessContext, has_permission}
use queryops_ai.Actions.Policy.{request_permission}
use queryops_ai.Actions.Rows.{
  ActionRequest, ApprovalRequest, ActionStatus, ApprovalStatus, AuditLog, is_pending_approval,
  is_pending, status_value,
}
use queryops_ai.Actions.Presentation.{action_presentation}
use queryops_ai.Actions.Audit.{build_action_audit_log}
use queryops_ai.Actions.Session.{Session, save_action, save_approval, add_audits}
use queryops_ai.Actions.Lifecycle.Base.{
  Outcome, returned, raised, crashed, forbidden, passed, statuses, commit_or_fail,
}
use queryops_ai.Actions.Requests.{
  Surroundings, ActionReply, request_not_found, conflict, type_not_supported, preview_unavailable,
  cannot_be_cancelled, approval_of, owned_action, serialize,
}
use queryops_ai.Actions.Requests.Expire.{ExpirationKind, expire_action_request}

abbrev pub cancelled_action : ActionRequest → ActionRequest
cancelled_action a = record a { status = ActionStatus.cancelled }

abbrev pub cancelled_approval : String → ℕ → ApprovalRequest → ApprovalRequest
cancelled_approval reason now p = record p {
  status = ApprovalStatus.cancelled;
  decision_reason = some reason;
  decided_at = some now;
}

unfoldable pub cancellation_audit : AppUser → String → ActionRequest → ApprovalRequest → AuditLog
cancellation_audit user reason a p = build_action_audit_log user a (some p) (record {
  event_type = "action_cancelled";
  action = "cancel";
  status = status_value ActionStatus.cancelled;
  summary = (action_presentation a.action_type).cancelled_summary;
  metadata =
      Json.field "approval_request_id" (Json.str (uuid_str p.id))
        (Json.field "cancellation_reason" (Json.str reason) Json.end);
  before_state = statuses ActionStatus.pending_approval ApprovalStatus.pending;
  after_state = statuses ActionStatus.cancelled ApprovalStatus.cancelled;
  severity = "info";
  self_approved = none;
})

module _ {D : Type 0} (around : Surroundings D) (user : AppUser) (context : UserAccessContext)
    (reason : String) (now : ℕ) where
  -- After a successful commit the rows are read again and shown.
  abbrev pub shown_after :
      ActionRequest
      → ApprovalRequest
      → Outcome (Unit {0}) × Session D
      → Outcome ActionReply × Session D
  shown_after a p (returned u, s) = serialize around context a now p s
  shown_after a p (raised e, s) = (raised e, s)
  shown_after a p (crashed, s) = (crashed, s)

  unfoldable pub cancel_pair :
      ActionRequest → ApprovalRequest → Session D → Outcome ActionReply × Session D
  cancel_pair a p s =
      let a' = cancelled_action a in
      let p' = cancelled_approval reason now p in
      shown_after a' p' (
        commit_or_fail "The action request could not be cancelled safely." tt (
          add_audits (cancellation_audit user reason a' p' ∷ [])
            (save_approval p' (save_action a' s))))

  abbrev pub cancel_loaded :
      ActionRequest → Option ApprovalRequest → Session D → Outcome ActionReply × Session D
  cancel_loaded a none s = (raised (conflict "The action request is not in a valid state."), s)
  cancel_loaded a (some p) s =
      if not (is_pending p.status)
      then (raised (conflict "The action request is not in a valid state."), s)
      else cancel_pair a p s

  unfoldable pub cancel_owned : ActionRequest → Session D → Outcome ActionReply × Session D
  cancel_owned a s =
      if not (around.is_registered a.action_type)
      then (raised type_not_supported, s)
      else if is_pending_approval a.status && passed a.expires_at now
      then expire_action_request user a (approval_of s.working a) now
          ExpirationKind.pending_approval s
      else if not (is_pending_approval a.status)
      then (raised cannot_be_cancelled, s)
      else if not (around.validates a)
      then (raised preview_unavailable, s)
      else cancel_loaded a (approval_of s.working a) s

  unfoldable pub cancel_request : Uuid → Session D → Outcome ActionReply × Session D
  cancel_request id s =
      if not (has_permission context request_permission)
      then (raised forbidden, s)
      else elim (owned_action s.working id user.id) [
        | none ↦ (raised request_not_found, s)
        | some a ↦ cancel_owned a s
      ]
