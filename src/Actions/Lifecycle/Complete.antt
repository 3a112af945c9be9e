-- ===== src/Actions/Lifecycle/Complete.antt =====
-- `_complete_success` and `_dedupe_notifications` of backend/app/action_engine/approval.py
use queryops_ai.Prelude.{
  ℕ, String, ◌+◌, Bool, not, ◌&&◌, ◌||◌, Option, none, some, List, [], ◌∷◌, ◌++◌, map, ◌==◌, str_eq,
  select, length, if◌then◌else◌,
}
use queryops_ai.Prelude.Uuid.{Uuid, uuid_str}
use queryops_ai.Prelude.Int.{pos}
use queryops_ai.Prelude.Json
use queryops_ai.Prelude.Json.{Json, Fields, Items}
use queryops_ai.Auth.Permissions.{AppUser}
use queryops_ai.Actions.Rows.{
  ActionRequest, ApprovalRequest, ActionStatus, ApprovalStatus, AuditLog, Member, Notification,
  status_value,
}
use queryops_ai.Actions.Presentation.{ActionPresentation, action_presentation}
use queryops_ai.Actions.Audit.{build_action_audit_log}
use queryops_ai.Actions.Notifications.{build_action_notification, eligible_approvers}
use queryops_ai.Actions.Session.{Session, save_action, save_approval, add_audits, add_notifications}
use queryops_ai.Actions.Lifecycle.Base.{active_notifications, dict_of}
use queryops_ai.Actions.Lifecycle.Handlers.{Revalidation}
use queryops_ai.Actions.Lifecycle.Skips.{
  prior_records, override_reason_records, skip_counts, updated_summary,
}

-- The action row after a success, or `none` where one of the steps on its columns raises.
unfoldable pub completed_action : Revalidation → ℕ → ActionRequest → Option ActionRequest
completed_action revalidation now a =
    let prior = prior_records a.skipped_records_json in
    let records = prior ++ revalidation.skipped_records in
    let skipped_count = length prior + length revalidation.skipped_records in
    elim (override_reason_records a.preview_json) [
      | none ↦ none
      | some override_records ↦ elim (skip_counts (records ++ override_records)) [
        | none ↦ none
        | some counts ↦ elim (dict_of a.preview_json) [
          | none ↦ none
          | some preview ↦ elim (dict_of (Json.get preview "summary")) [
            | none ↦ none
            | some summary ↦ some (record a {
              status = ActionStatus.completed;
              approved_at = some now;
              executed_at = some now;
              completed_at = some now;
              skipped_records_json = Json.obj (
                  Json.field "records" (Json.arr (Json.of_list records))
                    (Json.field "exclusions_by_reason" (Json.arr (Json.of_list counts)) Json.end));
              skipped_count = skipped_count;
              preview_json = Json.obj (
                  Json.set preview "summary"
                    (Json.obj (updated_summary skipped_count records summary)));
            })
          ]
        ]
      ]
    ]

abbrev pub approved_approval : AppUser → String → ℕ → ApprovalRequest → ApprovalRequest
approved_approval user reason now p = record p {
  status = ApprovalStatus.approved;
  decided_by_user_id = some user.id;
  decision_reason = some reason;
  decided_at = some now;
}

pub record_states : ActionPresentation → String → List Uuid → List Json
record_states pr status ids =
    map
      (λ i. Json.obj (
        Json.field pr.target_id_field (Json.str (uuid_str i))
          (Json.field pr.status_field (Json.str status) Json.end)))
      ids

abbrev pub states : List Json → Json
states records = Json.obj (Json.field "records" (Json.arr (Json.of_list records)) Json.end)

abbrev pub status_state : ActionStatus → Json
status_state s = Json.obj (Json.field "status" (Json.str (status_value s)) Json.end)

-- The two audit rows of a success.
unfoldable pub success_audits :
    AppUser → ActionRequest → ApprovalRequest → Revalidation → List Uuid → Bool → List AuditLog
unfolding record_states
success_audits user a p revalidation executed self_approved =
    let pr = action_presentation a.action_type in
    let metadata = Json.field "executed_count" (Json.num (pos (length executed))) (
      Json.field "skipped_count" (Json.num (pos a.skipped_count))
        (Json.field "override_used" (Json.bool revalidation.requires_policy_override) Json.end)) in
    build_action_audit_log user a (some p) (record {
      event_type = "action_approved";
      action = "approve";
      status = status_value ActionStatus.approved_executing;
      summary = pr.approved_summary;
      metadata = metadata;
      before_state = status_state ActionStatus.pending_approval;
      after_state = status_state ActionStatus.approved_executing;
      severity = "info";
      self_approved = some self_approved;
    })
    ∷ build_action_audit_log user a (some p) (record {
      event_type = "action_executed";
      action = "execute";
      status = status_value ActionStatus.completed;
      summary = pr.executed_summary;
      metadata = metadata;
      before_state = states (record_states pr pr.before_status executed);
      after_state = states (record_states pr pr.after_status executed);
      severity = "info";
      self_approved = some self_approved;
    })
    ∷ []

-- The dict of `_dedupe_notifications`: a later item takes the place of an earlier one.
abbrev pub same_key : Notification → Notification → Bool
same_key m n =
    m.recipient_user_id == n.recipient_user_id
    && str_eq m.notification_type n.notification_type
    && m.related_resource_id == n.related_resource_id

unfoldable pub place : Notification → List Notification → List Notification
place n [] = n ∷ []
place n (m ∷ ms) = let rest = place n ms in if same_key m n then n ∷ ms else m ∷ rest

unfoldable pub place_all : List Notification → List Notification → List Notification
place_all [] placed = placed
place_all (n ∷ ns) placed = place_all ns (place n placed)

-- `_dedupe_notifications`
unfoldable pub dedupe_notifications : List Notification → List Notification
unfolding place place_all
dedupe_notifications items = place_all items []

-- Administrators other than the two parties hear of an override.
pub override_notifications :
    AppUser → ActionRequest → ApprovalRequest → List Member → List Notification
override_notifications user a p recipients =
    map
      (λ (m : Member).
        build_action_notification m.user.id user.id "action_completed" "Sensitive action completed"
          "An approved policy-override action completed." a p)
      (select
        (λ (m : Member). not (m.user.id == a.requested_by_app_user_id || m.user.id == user.id))
        recipients)

unfoldable pub success_notifications :
    AppUser → ActionRequest → ApprovalRequest → Revalidation → List Member → List Notification
unfolding override_notifications
success_notifications user a p revalidation users =
    let pr = action_presentation a.action_type in
    let others =
      if revalidation.requires_policy_override
      then override_notifications user a p (eligible_approvers users a)
      else [] in
    active_notifications users (
      dedupe_notifications (
        build_action_notification a.requested_by_app_user_id user.id "action_approved"
          "Action request approved" pr.approved_body a p
        ∷ build_action_notification a.requested_by_app_user_id user.id "action_completed"
            "Action completed" pr.completed_body a p
        ∷ build_action_notification user.id user.id "action_completed" "Approved action completed"
            pr.approver_completed_body a p
        ∷ others))

module _ {D : Type 0} (user : AppUser) (reason : String) (now : ℕ) where
  -- `_complete_success`; `none` is an exception.
  unfoldable pub complete_success :
      ActionRequest
      → ApprovalRequest
      → Revalidation
      → List Uuid
      → Bool
      → Session D
      → Option (ActionRequest × Session D)
  complete_success a p revalidation executed self_approved s =
      elim (completed_action revalidation now a) [
        | none ↦ none
        | some a' ↦
            let p' = approved_approval user reason now p in
            some (
              a',
              add_notifications (success_notifications user a' p' revalidation s.working.users) (
                  add_audits (success_audits user a' p' revalidation executed self_approved)
                    (save_approval p' (save_action a' s))),
            )
      ]
