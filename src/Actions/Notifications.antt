-- ===== src/Actions/Notifications.antt =====
-- backend/app/action_engine/notifications.py, with `_approval_decision` of approval.py: who can
-- approve a request, and what is sent to whom.
pub mod Recipients
use queryops_ai.Prelude.{
  ℕ, String, Bool, true, false, ◌&&◌, ◌||◌, Option, none, some, List, [], ◌∷◌, map, ltb, leb,
  str_eq, select, if◌then◌else◌,
}
use queryops_ai.Prelude.Uuid.{Uuid, uuid_str}
use queryops_ai.Prelude.Int.{pos}
use queryops_ai.Prelude.Sorting.{sort_by}
use queryops_ai.Prelude.Json
use queryops_ai.Prelude.Json.{Json, Fields, is_true}
use queryops_ai.Auth.Permissions.{AppUser, is_active}
use queryops_ai.Auth.Context.{UserAccessContext}
use queryops_ai.Actions.Policy.{ActionPolicyDecision, ApprovalQuestion, evaluate_action_approval}
use queryops_ai.Actions.Presentation.{action_presentation}
use queryops_ai.Actions.Rows.{
  ActionRequest, ApprovalRequest, Member, Notification, Tables, type_value, status_value,
}

-- `policy if isinstance(policy, dict) else {}`
abbrev pub as_dict : Json → Fields
as_dict (Json.obj fs) = fs
as_dict _ = Json.end

abbrev pub or_empty : Option String → String
or_empty none = ""
or_empty (some s) = s

abbrev pub has_text : Option String → String → Bool
has_text none t = false
has_text (some s) t = str_eq s t

-- The arguments with which a stored request is put to the policy.
unfoldable pub approval_question : ActionRequest → ApprovalQuestion
approval_question a =
    let policy = as_dict a.policy_flags_json in
    record {
      requester_app_user_id = a.requested_by_app_user_id;
      scope_type = or_empty a.scope_type;
      scope_key = or_empty a.scope_key;
      record_count = pos a.record_count;
      crosses_scopes =
          has_text a.scope_type "global"
          || is_true (Json.get policy "crosses_scopes")
          || is_true (Json.get policy "revalidation_crosses_scopes")
          || ltb 20 a.record_count;
      requires_policy_override =
          is_true (Json.get policy "requires_policy_override")
          || is_true (Json.get policy "revalidation_requires_policy_override");
    }

-- `_approval_decision`
unfoldable pub approval_decision : ActionRequest → UserAccessContext → ActionPolicyDecision
approval_decision a context = evaluate_action_approval context (approval_question a)

-- The active users whom the policy lets approve, by id. The query reads `policy` and the scopes as
-- `approval_question` does.
unfoldable pub eligible_approvers : List Member → ActionRequest → List Member
unfolding approval_decision
eligible_approvers users a =
    sort_by (λ (m : Member) (n : Member). leb m.user.id n.user.id)
      (select (λ (m : Member). is_active m.user.status && (approval_decision a m.context).allowed)
        users)

abbrev pub optional_id : Option Uuid → Json
optional_id none = Json.null
optional_id (some u) = Json.str (uuid_str u)

abbrev pub optional_text : Option String → Json
optional_text none = Json.null
optional_text (some s) = Json.str s

-- `iso` prints an instant as `_timestamp` does.
module _ (iso : ℕ → String) where
  abbrev pub optional_time : Option ℕ → Json
  optional_time none = Json.null
  optional_time (some t) = Json.str (iso t)

  abbrev pub pending_payload : ActionRequest → ApprovalRequest → Json
  pending_payload a p = Json.obj (
      Json.field "action_request_id" (Json.str (uuid_str a.id)) (
        Json.field "approval_request_id" (Json.str (uuid_str p.id)) (
          Json.field "action_type" (Json.str (type_value a.action_type)) (
            Json.field "priority" (Json.str a.priority) (
              Json.field "scope"
                (Json.obj (
                  Json.field "id" (optional_id a.scope_id) (
                    Json.field "type" (optional_text a.scope_type)
                      (Json.field "key" (optional_text a.scope_key) Json.end))))
                (Json.field "expires_at" (optional_time p.expires_at) Json.end))))))

  unfoldable pub build_pending_approval_notifications :
      ActionRequest → ApprovalRequest → List Member → List Notification
  build_pending_approval_notifications a p recipients =
      map
        (λ (m : Member). record {
          recipient_user_id = m.user.id;
          actor_user_id = a.requested_by_app_user_id;
          notification_type = "action_pending_approval";
          title = "Action request pending approval";
          body = (action_presentation a.action_type).pending_body;
          status = "unread";
          related_resource_type = "action_request";
          related_resource_id = a.id;
          payload = pending_payload a p;
        })
        recipients

unfoldable pub build_action_notification :
    Uuid → Uuid → String → String → String → ActionRequest → ApprovalRequest → Notification
build_action_notification recipient actor notification_type title body a p = record {
  recipient_user_id = recipient;
  actor_user_id = actor;
  notification_type = notification_type;
  title = title;
  body = body;
  status = "unread";
  related_resource_type = "action_request";
  related_resource_id = a.id;
  payload = Json.obj (
      Json.field "action_request_id" (Json.str (uuid_str a.id)) (
        Json.field "approval_request_id" (Json.str (uuid_str p.id)) (
          Json.field "action_type" (Json.str (type_value a.action_type))
            (Json.field "status" (Json.str (status_value a.status)) Json.end))));
}
