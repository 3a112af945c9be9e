-- ===== src/Actions/Lifecycle/Expire.antt =====
-- `_expire_one`, which the methods call on a pending pair whose time is over.
use queryops_ai.Prelude.{
  ℕ, Bool, true, false, not, ◌&&◌, ◌||◌, none, some, [], ◌∷◌, ◌==◌, if◌then◌else◌,
}
use queryops_ai.Prelude.Json
use queryops_ai.Auth.Permissions.{AppUser}
use queryops_ai.Actions.Rows.{
  ActionRequest, ApprovalRequest, ActionStatus, ApprovalStatus, AuditLog, is_pending_approval,
  is_pending, status_value,
}
use queryops_ai.Actions.Audit.{build_action_audit_log}
use queryops_ai.Actions.Session.{
  Session, update_where, rollback, save_action, save_approval, add_audits,
}
use queryops_ai.Actions.Lifecycle.Base.{
  Outcome, returned, passed, links_to, statuses, commit_or_fail,
}

abbrev pub expired_action : ActionRequest → ActionRequest
expired_action a = record a { status = ActionStatus.expired }

abbrev pub expired_approval : ℕ → ApprovalRequest → ApprovalRequest
expired_approval now p = record p { status = ApprovalStatus.expired; decided_at = some now }

unfoldable pub expiry_audit : AppUser → ActionRequest → ApprovalRequest → AuditLog
expiry_audit actor a p = build_action_audit_log actor a (some p) (record {
  event_type = "action_expired";
  action = "expire";
  status = status_value ActionStatus.expired;
  summary = "Pending action request expired.";
  metadata = Json.field "expiration_kind" (Json.str "pending_approval") Json.end;
  before_state = statuses ActionStatus.pending_approval ApprovalStatus.pending;
  after_state = statuses ActionStatus.expired ApprovalStatus.expired;
  severity = "info";
  self_approved = none;
})

module _ {D : Type 0} (actor : AppUser) (a : ActionRequest) (p : ApprovalRequest) (now : ℕ) where
  unfoldable pub expire_one : Session D → Outcome Bool × Session D
  expire_one s =
      let (actions, changed) =
        update_where s.working.actions a.id
          (λ (r : ActionRequest). is_pending_approval r.status && passed r.expires_at now)
          expired_action in
      let (approvals, decided) =
        update_where s.working.approvals p.id
          (λ (r : ApprovalRequest).
            links_to r.action_request_id a.id && is_pending r.status && passed r.expires_at now)
          (expired_approval now) in
      let updated : Session D = record s {
        working = record s.working { actions = actions; approvals = approvals };
      } in
      let a' = expired_action a in
      let p' = expired_approval now p in
      if not (changed == 1) || not (decided == 1)
      then (returned false, rollback updated)
      else commit_or_fail "The expired approval could not be updated safely." true
          (add_audits (expiry_audit actor a' p' ∷ []) (save_approval p' (save_action a' updated)))
