-- ===== src/Actions/Requests/Submit.antt =====
-- `ActionLifecycleService.submit_request`
use queryops_ai.Prelude.{
  ℕ, String, Bool, not, ◌+◌, Option, none, some, [], ◌∷◌, ◌==◌, if◌then◌else◌, length,
}
use queryops_ai.Prelude.Uuid.{Uuid, uuid_str}
use queryops_ai.Prelude.Int.{pos}
use queryops_ai.Prelude.Json
use queryops_ai.Prelude.Json.{Json, is_true}
use queryops_ai.Auth.Permissions.{AppUser}
use queryops_ai.Auth.Context.{UserAccessContext, has_permission}
use queryops_ai.Actions.Policy.{request_permission}
use queryops_ai.Actions.Rows.{
  ActionRequest, ApprovalRequest, ActionStatus, ApprovalStatus, AuditLog, type_value, status_value,
}
use queryops_ai.Actions.Presentation.{action_presentation}
use queryops_ai.Actions.Audit.{build_action_audit_log}
use queryops_ai.Actions.Notifications.{
  eligible_approvers, build_pending_approval_notifications, optional_text,
}
use queryops_ai.Actions.Session.{
  Session, commit, rollback, save_action, insert_approval, add_audits, add_notifications,
}
use queryops_ai.Actions.Lifecycle.Base.{Outcome, raised, forbidden, internal_error, passed}
use queryops_ai.Actions.Requests.{
  Surroundings, ActionReply, request_not_found, conflict, type_not_supported, preview_unavailable,
  not_eligible, approval_of, owned_action, serialize, policy_flag_codes, texts_json,
}
use queryops_ai.Actions.Requests.Expire.{ExpirationKind, expire_action_request}

-- `PENDING_APPROVAL_LIFETIME`, 24 hours in the unit of the instants, which are seconds.
abbrev pub pending_approval_lifetime : ℕ
pending_approval_lifetime = 86400

-- `_safe_approval_policy_snapshot`
abbrev pub policy_snapshot_of : ActionRequest → Json → Json
policy_snapshot_of a (Json.obj policy) = Json.obj (
    Json.field "flag_codes" (Json.arr (texts_json (policy_flag_codes a))) (
      Json.field "requires_admin" (Json.bool a.requires_admin) (
        Json.field "crosses_scopes" (Json.bool (is_true (Json.get policy "crosses_scopes"))) (
          Json.field "requires_policy_override"
            (Json.bool (is_true (Json.get policy "requires_policy_override"))) Json.end))))
policy_snapshot_of a _ = Json.obj Json.end

abbrev pub submitted_action : String → ℕ → ActionRequest → ActionRequest
submitted_action reason now a = record a {
  status = ActionStatus.pending_approval;
  reason = some reason;
  submitted_at = some now;
  expires_at = some (now + pending_approval_lifetime);
}

-- `str(id)`
abbrev pub id_text : Option Uuid → Json
id_text none = Json.str "None"
id_text (some u) = Json.str (uuid_str u)

-- The approval of a submitted action. `id` is a fresh one.
abbrev pub new_approval : AppUser → String → ActionRequest → Uuid → ApprovalRequest
new_approval user reason a id = record {
  id = id;
  requester_user_id = some user.id;
  query_run_id = none;
  action_request_id = some a.id;
  request_type = type_value a.action_type;
  title = (action_presentation a.action_type).request_title;
  description = some reason;
  status = ApprovalStatus.pending;
  target_type = some "action_request";
  target_id = some a.id;
  payload = Json.obj (
      Json.field "action_type" (Json.str (type_value a.action_type)) (
        Json.field "record_count" (Json.num (pos a.record_count)) (
          Json.field "skipped_count" (Json.num (pos a.skipped_count)) (
            Json.field "requires_admin" (Json.bool a.requires_admin) (
              Json.field "scope"
                (Json.obj (
                  Json.field "id" (id_text a.scope_id) (
                    Json.field "type" (optional_text a.scope_type)
                      (Json.field "key" (optional_text a.scope_key) Json.end))))
                Json.end)))));
  policy_snapshot = policy_snapshot_of a a.policy_flags_json;
  decided_by_user_id = none;
  decision_reason = none;
  decided_at = none;
  required_approver_role = some (if a.requires_admin then "admin" else "analyst_or_admin");
  expires_at = a.expires_at;
}

abbrev status_state : ActionStatus → Json
status_state s = Json.obj (Json.field "status" (Json.str (status_value s)) Json.end)

unfoldable pub submission_audit : AppUser → ActionRequest → ApprovalRequest → ℕ → AuditLog
submission_audit user a p notified = build_action_audit_log user a (some p) (record {
  event_type = "action_requested";
  action = "request";
  status = status_value ActionStatus.pending_approval;
  summary = (action_presentation a.action_type).requested_summary;
  metadata = Json.field "approval_request_id" (Json.str (uuid_str p.id)) (
      Json.field "notification_count" (Json.num (pos notified))
        (Json.field "policy_flag_codes" (Json.arr (texts_json (policy_flag_codes a))) Json.end));
  before_state = status_state ActionStatus.draft_preview;
  after_state = status_state ActionStatus.pending_approval;
  severity = "info";
  self_approved = none;
})

-- `is_integrity_error` says which kind of error a failed commit of this request is.
module _ {D : Type 0} (around : Surroundings D) (user : AppUser) (context : UserAccessContext)
    (reason : String) (now : ℕ) (fresh_id : Uuid) (is_integrity_error : Bool) where
  -- All that a submission saves.
  unfoldable pub submit_work : ActionRequest → Session D → Session D
  submit_work a s =
      let a' = submitted_action reason now a in
      let p = new_approval user reason a' fresh_id in
      let notifications =
        build_pending_approval_notifications around.iso a' p
          (eligible_approvers s.working.users a') in
      add_audits (submission_audit user a' p (length notifications) ∷ [])
        (add_notifications notifications (insert_approval p (save_action a' s)))

  abbrev pub existing_approval :
      ActionRequest → Option ApprovalRequest → Session D → Outcome ActionReply × Session D
  existing_approval a none s =
      (raised (conflict "The action request has already been processed."), s)
  existing_approval a (some p) s = serialize around context a now p s

  abbrev pub existing_pending :
      ActionStatus → ActionRequest → Session D → Outcome ActionReply × Session D
  existing_pending ActionStatus.pending_approval a s =
      existing_approval a (approval_of s.working a) s
  existing_pending _ a s = (raised (conflict "The action request has already been processed."), s)

  -- Somebody else has submitted it: what there is now.
  abbrev pub after_conflict : Option ActionRequest → Session D → Outcome ActionReply × Session D
  after_conflict none s = (raised (conflict "The action request has already been processed."), s)
  after_conflict (some a) s = existing_pending a.status a s

  -- The lock is gone with the rollback, and what others commit shows.
  abbrev pub seen_again : Session D → Session D
  seen_again s = record s { saved = around.meanwhile s.saved; working = around.meanwhile s.saved }

  unfoldable pub submit_new : ActionRequest → Session D → Outcome ActionReply × Session D
  submit_new a s =
      let a' = submitted_action reason now a in
      let (s', done) = commit (submit_work a s) in
      if done
      then serialize around context a' now (new_approval user reason a' fresh_id) s'
      else if is_integrity_error
      then (let again = seen_again (rollback s') in
          after_conflict (owned_action again.working a.id user.id) again)
      else (
        raised (internal_error "The action request could not be submitted safely."),
        rollback s',
      )

  unfoldable pub submit_draft : ActionRequest → Session D → Outcome ActionReply × Session D
  submit_draft a s =
      if passed a.preview_expires_at now
      then expire_action_request user a (approval_of s.working a) now ExpirationKind.draft_preview s
      else if not (around.validates a)
      then (raised preview_unavailable, s)
      else if a.record_count == 0
      then (raised not_eligible, s)
      else submit_new a s

  abbrev pub pending_again :
      ActionRequest → Option ApprovalRequest → Session D → Outcome ActionReply × Session D
  pending_again a none s = (raised (conflict "The action request is not in a valid state."), s)
  pending_again a (some p) s = serialize around context a now p s

  -- Submitting once more shows what has been submitted.
  unfoldable pub submit_again : ActionRequest → Session D → Outcome ActionReply × Session D
  submit_again a s =
      if passed a.expires_at now
      then expire_action_request user a (approval_of s.working a) now
          ExpirationKind.pending_approval s
      else if not (around.validates a)
      then (raised preview_unavailable, s)
      else pending_again a (approval_of s.working a) s

  abbrev pub submit_by_status :
      ActionStatus → ActionRequest → Session D → Outcome ActionReply × Session D
  submit_by_status ActionStatus.pending_approval a s = submit_again a s
  submit_by_status ActionStatus.draft_preview a s = submit_draft a s
  submit_by_status _ a s = (raised (conflict "The action request has already been processed."), s)

  unfoldable pub submit_owned : ActionRequest → Session D → Outcome ActionReply × Session D
  submit_owned a s =
      if not (around.is_registered a.action_type)
      then (raised type_not_supported, s)
      else submit_by_status a.status a s

  unfoldable pub submit_request : Uuid → Session D → Outcome ActionReply × Session D
  submit_request id s =
      if not (has_permission context request_permission)
      then (raised forbidden, s)
      else elim (owned_action s.working id user.id) [
        | none ↦ (raised request_not_found, s)
        | some a ↦ submit_owned a s
      ]
