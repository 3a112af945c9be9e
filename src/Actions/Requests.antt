-- ===== src/Actions/Requests.antt =====
-- `ActionLifecycleService` of backend/app/action_engine/service.py: what a requester does with an own
-- action request. Here: its errors, its surroundings, and what it answers.
pub mod Expire
pub mod Submit
pub mod Cancel
pub mod Changes
pub mod Refines
use queryops_ai.Prelude.{
  ℕ, String, Bool, true, false, not, Option, none, some, List, [], ◌∷◌, ◌==◌, if◌then◌else◌, leb,
}
use queryops_ai.Prelude.Uuid.{Uuid, uuid_str}
use queryops_ai.Prelude.Json
use queryops_ai.Prelude.Json.{Json, Items}
use queryops_ai.Prelude.Sorting.{sort_by, str_le, distinct}
use queryops_ai.Auth.Context.{UserAccessContext, has_permission}
use queryops_ai.Actions.Rows.{
  ActionRequest, ApprovalRequest, ActionStatus, ActionType, Tables, type_value, status_value,
  approval_value,
}
use queryops_ai.Actions.Notifications.{optional_id, optional_text, optional_time}
use queryops_ai.Actions.Session.{Session}
use queryops_ai.Actions.Lifecycle.Base.{
  Outcome, returned, raised, crashed, ServiceError, passed, links_to,
}

abbrev pub request_not_found : ServiceError
request_not_found = record {
  code = "ACTION_REQUEST_NOT_FOUND";
  message = "Action request was not found.";
  status_code = 404;
}

abbrev pub conflict : String → ServiceError
conflict message = record {
  code = "ACTION_ALREADY_PROCESSED";
  message = message;
  status_code = 409;
}

abbrev pub type_not_supported : ServiceError
type_not_supported = record {
  code = "ACTION_TYPE_NOT_SUPPORTED";
  message = "The requested action type is not available.";
  status_code = 422;
}

abbrev pub preview_unavailable : ServiceError
preview_unavailable = record {
  code = "ACTION_PREVIEW_UNAVAILABLE";
  message = "The stored action preview is unavailable.";
  status_code = 409;
}

abbrev pub not_eligible : ServiceError
not_eligible = record {
  code = "ACTION_NOT_ELIGIBLE";
  message = "The action preview contains no eligible records.";
  status_code = 422;
}

abbrev pub cannot_be_cancelled : ServiceError
cannot_be_cancelled = record {
  code = "ACTION_CANNOT_BE_CANCELLED";
  message = "The action request can no longer be cancelled.";
  status_code = 409;
}

-- What the service uses: whether a type has a handler, the check and the safe views of a stored
-- preview (preview.py), the name of the action's scope, and what other transactions commit while a
-- failed submission has given up its lock. `iso` prints instants.
pub record Surroundings (D : Type 0) : Type 0 where
  pub is_registered : ActionType → Bool
  pub validates : ActionRequest → Bool
  pub safe_preview : ActionRequest → Json
  pub policy_details : ActionRequest → Json
  pub scope_name : ActionRequest → Option String
  pub meanwhile : Tables D → Tables D
  pub iso : ℕ → String

-- `_serialize_action_request`, without the columns that the database fills in itself.
pub record ActionReply : Type 0 where
  pub action_request_id : String
  pub action_type : String
  pub status : String
  pub priority : String
  pub scope : Json
  pub preview : Json
  pub generated_at : Json
  pub preview_expires_at : Json
  pub expires_at : Json
  pub requires_admin : Bool
  pub is_expired : Bool
  pub submitted_at : Json
  pub reason : Json
  pub policy_details : Option Json
  pub approval : Json

-- The deadline that counts in the status.
abbrev pub deadline_in : ActionStatus → ActionRequest → Option ℕ
deadline_in ActionStatus.draft_preview a = a.preview_expires_at
deadline_in _ a = a.expires_at

module _ {D : Type 0} (around : Surroundings D) where
  abbrev pub approval_json : ApprovalRequest → Json
  approval_json p = Json.obj (
      Json.field "id" (Json.str (uuid_str p.id)) (
        Json.field "status" (Json.str (approval_value p.status)) (
          Json.field "required_approver_role" (optional_text p.required_approver_role)
            (Json.field "expires_at" (optional_time around.iso p.expires_at) Json.end))))

  abbrev pub action_reply : Bool → ActionRequest → ℕ → ApprovalRequest → ActionReply
  action_reply include_policy_details a now p = record {
    action_request_id = uuid_str a.id;
    action_type = type_value a.action_type;
    status = status_value a.status;
    priority = a.priority;
    scope = Json.obj (
        Json.field "id" (optional_id a.scope_id) (
          Json.field "type" (optional_text a.scope_type) (
            Json.field "key" (optional_text a.scope_key)
              (Json.field "display_name" (optional_text (around.scope_name a)) Json.end))));
    preview = around.safe_preview a;
    generated_at = optional_time around.iso a.preview_generated_at;
    preview_expires_at = optional_time around.iso a.preview_expires_at;
    expires_at = optional_time around.iso (deadline_in a.status a);
    requires_admin = a.requires_admin;
    is_expired = passed (deadline_in a.status a) now;
    submitted_at = optional_time around.iso a.submitted_at;
    reason = optional_text a.reason;
    policy_details = if include_policy_details then some (around.policy_details a) else none;
    approval = approval_json p;
  }

  -- With the reason and the approval. A stored preview that does not pass the check raises.
  unfoldable pub serialize :
      UserAccessContext
      → ActionRequest
      → ℕ
      → ApprovalRequest
      → Session D
      → Outcome ActionReply × Session D
  serialize context a now p s =
      if around.validates a
      then (returned (action_reply (has_permission context "can_view_sql") a now p), s)
      else (crashed, s)

-- The first of the rows under these keys that names the action. The column is UNIQUE.
pub approval_among : (Uuid → Option ApprovalRequest) → Uuid → List Uuid → Option ApprovalRequest
approval_among rows i [] = none
approval_among rows i (k ∷ ks) =
    let rest = approval_among rows i ks in
    elim (rows k) [ none ↦ rest | some p ↦ if links_to p.action_request_id i then some p else rest ]

-- `action_request.approval_request`
unfoldable pub approval_of : {D : Type 0} → Tables D → ActionRequest → Option ApprovalRequest
unfolding approval_among
approval_of t a = approval_among t.approvals a.id t.approval_keys

-- The row with this id, if it is the user's own.
abbrev pub own : Uuid → Option ActionRequest → Option ActionRequest
own user_id none = none
own user_id (some a) = if a.requested_by_app_user_id == user_id then some a else none

-- `_owned_action_for_update` and `_owned_action`. The first locks the row until the transaction ends.
unfoldable pub owned_action : {D : Type 0} → Tables D → Uuid → Uuid → Option ActionRequest
owned_action t id user_id = own user_id (t.actions id)

-- `flag["code"]` of each flag that is a dict with a text there
pub flag_codes : Items → List String
flag_codes Json.nil = []
flag_codes (Json.cons (Json.obj fs) rest) = elim (Json.get fs "code") [
  | Json.str s ↦ s ∷ flag_codes rest
  | _ ↦ flag_codes rest
]
flag_codes (Json.cons _ rest) = flag_codes rest

abbrev codes_of_flags : Json → List String
codes_of_flags (Json.arr flags) = sort_by str_le (distinct (flag_codes flags))
codes_of_flags _ = []

abbrev codes_in : Json → List String
codes_in (Json.obj policy) = codes_of_flags (Json.get policy "flags")
codes_in _ = []

-- `_policy_flag_codes`
unfoldable pub policy_flag_codes : ActionRequest → List String
unfolding flag_codes
policy_flag_codes a = codes_in a.policy_flags_json

-- A list of texts as JSON.
pub texts_json : List String → Items
texts_json [] = Json.nil
texts_json (x ∷ xs) = Json.cons (Json.str x) (texts_json xs)
