-- ===== src/Actions/Requests/Expire.antt =====
-- `_expire_action_request`, which always raises.
use queryops_ai.Prelude.{ℕ, String, Option, none, some, [], ◌∷◌, if◌then◌else◌}
use queryops_ai.Prelude.Json
use queryops_ai.Prelude.Json.{Json}
use queryops_ai.Auth.Permissions.{AppUser}
use queryops_ai.Actions.Rows.{
  ActionRequest, ApprovalRequest, ActionStatus, ApprovalStatus, AuditLog, is_pending, status_value,
  approval_value,
}
use queryops_ai.Actions.Audit.{build_action_audit_log}
use queryops_ai.Actions.Session.{Session, save_action, save_approval, add_audits}
use queryops_ai.Actions.Lifecycle.Base.{
  Outcome, returned, raised, crashed, expired_error, commit_or_fail,
}
use queryops_ai.Actions.Lifecycle.Expire.{expired_action, expired_approval}

pub data ExpirationKind : Type 0 where
  draft_preview pending_approval : ExpirationKind

abbrev pub kind_value : ExpirationKind → String
kind_value ExpirationKind.draft_preview = "draft_preview"
kind_value ExpirationKind.pending_approval = "pending_approval"

abbrev pub expiry_summary : ExpirationKind → String
expiry_summary ExpirationKind.draft_preview = "Action preview expired."
expiry_summary ExpirationKind.pending_approval = "Pending action request expired."

abbrev pub status_json : Option ApprovalRequest → Json
status_json none = Json.null
status_json (some p) = Json.str (approval_value p.status)

-- The status after the expiry, as the audit row says it: of any approval that is there.
abbrev pub expired_json : Option ApprovalRequest → Json
expired_json none = Json.null
expired_json (some p) = Json.str (approval_value ApprovalStatus.expired)

abbrev pub two_statuses : Json → Json → Json
two_statuses action approval =
    Json.obj (Json.field "action_status" action (Json.field "approval_status" approval Json.end))

unfoldable pub requester_expiry_audit :
    AppUser → ActionRequest → Option ApprovalRequest → ExpirationKind → AuditLog
requester_expiry_audit actor a approval kind =
    build_action_audit_log actor (expired_action a) approval (record {
      event_type = "action_expired";
      action = "expire";
      status = status_value ActionStatus.expired;
      summary = expiry_summary kind;
      metadata = Json.field "expiration_kind" (Json.str (kind_value kind)) Json.end;
      before_state = two_statuses (Json.str (status_value a.status)) (status_json approval);
      after_state =
          two_statuses (Json.str (status_value ActionStatus.expired)) (expired_json approval);
      severity = "info";
      self_approved = none;
    })

-- Only a pending approval expires with its action.
abbrev pub expired_with : ℕ → ApprovalRequest → ApprovalRequest
expired_with now p = if is_pending p.status then expired_approval now p else p

abbrev pub save_loaded : {D : Type 0} → ℕ → Option ApprovalRequest → Session D → Session D
save_loaded now none s = s
save_loaded now (some p) s = save_approval (expired_with now p) s

abbrev pub raise_expired : {D A : Type 0} → Outcome (Unit {0}) × Session D → Outcome A × Session D
raise_expired (returned u, s) = (raised expired_error, s)
raise_expired (raised e, s) = (raised e, s)
raise_expired (crashed, s) = (crashed, s)

-- `approval` is `action_request.approval_request`.
unfoldable pub expire_action_request :
    {D A : Type 0}
    → AppUser
    → ActionRequest
    → Option ApprovalRequest
    → ℕ
    → ExpirationKind
    → Session D
    → Outcome A × Session D
expire_action_request actor a approval now kind s = raise_expired (
    commit_or_fail "The expired action request could not be updated safely." tt (
      save_loaded now approval (
        add_audits (requester_expiry_audit actor a approval kind ∷ [])
          (save_action (expired_action a) s))))
