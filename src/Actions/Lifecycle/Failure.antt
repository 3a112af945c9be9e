-- ===== src/Actions/Lifecycle/Failure.antt =====
-- `_persist_execution_failure`
use queryops_ai.Prelude.{
  ℕ, String, ◌<>◌, Bool, true, false, not, ◌&&◌, ◌||◌, Option, none, some, List, [], ◌∷◌, map, ◌==◌,
  ltb, if◌then◌else◌,
}
use queryops_ai.Prelude.Uuid.{Uuid}
use queryops_ai.Prelude.Json
use queryops_ai.Auth.Permissions.{AppUser}
use queryops_ai.Actions.Rows.{
  ActionRequest, ApprovalRequest, ActionStatus, AuditLog, Notification, is_pending_approval,
  is_pending, status_value,
}
use queryops_ai.Actions.Audit.{build_action_audit_log}
use queryops_ai.Actions.Notifications.{build_action_notification}
use queryops_ai.Actions.Session.{
  Session, update_where, rollback, commit, save_action, save_approval, add_audits,
  add_notifications,
}
use queryops_ai.Actions.Lifecycle.Base.{links_to, active_notifications}
use queryops_ai.Actions.Lifecycle.Complete.{approved_approval, status_state}

abbrev pub failed_action : String → ℕ → ActionRequest → ActionRequest
failed_action category now a = record a {
  status = ActionStatus.failed;
  failure_reason_user_safe = some "The action could not be completed safely.";
  failure_reason_internal = some ("execution:" <> category);
  completed_at = some now;
}

unfoldable pub failure_audit : AppUser → String → ActionRequest → ApprovalRequest → AuditLog
failure_audit user category a p = build_action_audit_log user a (some p) (record {
  event_type = "action_failed";
  action = "execute";
  status = status_value ActionStatus.failed;
  summary = "The approved action could not be completed safely.";
  metadata = Json.field "failure_category" (Json.str category) Json.end;
  before_state = status_state ActionStatus.pending_approval;
  after_state = status_state ActionStatus.failed;
  severity = "error";
  self_approved = none;
})

-- The set of both, by id.
abbrev pub recipients : Uuid → Uuid → List Uuid
recipients r u = if r == u then r ∷ [] else if ltb r u then r ∷ u ∷ [] else u ∷ r ∷ []

unfoldable pub failure_notifications : AppUser → ActionRequest → ApprovalRequest → List Notification
failure_notifications user a p =
    map
      (λ r.
        build_action_notification r user.id "action_failed" "Action failed"
          "The action could not be completed safely." a p)
      (recipients a.requested_by_app_user_id user.id)

module _ {D : Type 0} (user : AppUser) (reason : String) (now : ℕ) (category : String) where
  abbrev pub commit_or_raise : Session D → Option Bool × Session D
  commit_or_raise s = let (s', done) = commit s in if done then (some true, s') else (none, s')

  -- The pair as it has been locked anew.
  unfoldable pub fail_pair : ActionRequest → ApprovalRequest → Session D → Option Bool × Session D
  fail_pair a p s =
      let (actions, changed) =
        update_where s.working.actions a.id (λ (r : ActionRequest). is_pending_approval r.status)
          (failed_action category now) in
      let claimed : Session D = record s { working = record s.working { actions = actions } } in
      let (approvals, decided) =
        update_where s.working.approvals p.id
          (λ (r : ApprovalRequest). links_to r.action_request_id a.id && is_pending r.status)
          (approved_approval user reason now) in
      let updated : Session D = record claimed {
        working = record claimed.working { approvals = approvals };
      } in
      let a' = failed_action category now a in
      let p' = approved_approval user reason now p in
      if not (is_pending_approval a.status) || not (is_pending p.status)
      then (some false, rollback s)
      else if not (changed == 1)
      then (some false, rollback claimed)
      else if not (decided == 1)
      then (some false, rollback updated)
      else commit_or_raise (
          add_notifications
            (active_notifications s.working.users (failure_notifications user a' p'))
            (add_audits (failure_audit user category a' p' ∷ [])
              (save_approval p' (save_action a' updated))))

  -- Whether the failure was persisted; `none` is an exception.
  unfoldable pub persist_execution_failure : Uuid → Uuid → Session D → Option Bool × Session D
  persist_execution_failure action_id approval_id s = elim (s.working.actions action_id) [
    | none ↦ (none, s)
    | some a ↦ elim (s.working.approvals approval_id) [
      | none ↦ (none, s)
      | some p ↦ fail_pair a p s
    ]
  ]
