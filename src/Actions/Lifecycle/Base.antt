-- ===== src/Actions/Lifecycle/Base.antt =====
-- The errors, the locked pair, and the tests on it.
use queryops_ai.Prelude.{
  ℕ, String, Bool, true, false, not, ◌&&◌, ◌||◌, Option, none, some, List, ◌==◌, leb, if◌then◌else◌,
  any, select,
}
use queryops_ai.Prelude.Uuid.{Uuid}
use queryops_ai.Prelude.Json
use queryops_ai.Prelude.Json.{Json, Fields}
use queryops_ai.Auth.Permissions.{is_active}
use queryops_ai.Actions.Rows.{
  ActionRequest, ApprovalRequest, ActionStatus, ApprovalStatus, Member, Notification, Tables,
  is_pending_approval, is_pending, status_value, approval_value,
}
use queryops_ai.Actions.Session.{Session, rollback, commit}

pub record ServiceError : Type 0 where
  pub code : String
  pub message : String
  pub status_code : ℕ

-- A value, an `ApprovalServiceError`, or any other exception.
pub data Outcome (A : Type 0) : Type 0 where
  returned : A → Outcome A
  raised : ServiceError → Outcome A
  crashed : Outcome A

abbrev pub not_found : ServiceError
not_found = record {
  code = "APPROVAL_NOT_FOUND";
  message = "Approval request was not found.";
  status_code = 404;
}

abbrev pub forbidden : ServiceError
forbidden = record {
  code = "FORBIDDEN";
  message = "You are not authorized to perform this action.";
  status_code = 403;
}

abbrev pub already_processed : ServiceError
already_processed = record {
  code = "ACTION_ALREADY_PROCESSED";
  message = "The action request has already been processed.";
  status_code = 409;
}

abbrev pub expired_error : ServiceError
expired_error = record {
  code = "ACTION_REQUEST_EXPIRED";
  message = "The action request has expired. Create a new preview.";
  status_code = 410;
}

abbrev pub internal_error : String → ServiceError
internal_error message = record { code = "INTERNAL_ERROR"; message = message; status_code = 500 }

-- `x.action_request_id == id`
abbrev pub links_to : Option Uuid → Uuid → Bool
links_to none i = false
links_to (some j) i = j == i

-- `deadline IS NULL OR deadline <= now`
abbrev pub passed : Option ℕ → ℕ → Bool
passed none now = true
passed (some t) now = leb t now

-- `deadline > now`, which NULL is not
abbrev pub ahead : Option ℕ → ℕ → Bool
ahead none now = false
ahead (some t) now = not (leb t now)

module _ {D : Type 0} where
  -- Both rows are locked until the transaction ends, so the state that this reads is the one at
  -- the moment of the lock: nobody else changes the pair before a commit or a rollback.
  abbrev pub pair_of : Tables D → Uuid → Option Uuid → Option (ActionRequest × ApprovalRequest)
  pair_of t approval_id none = none
  pair_of t approval_id (some i) = elim (t.actions i) [
    | none ↦ none
    | some action ↦ elim (t.approvals approval_id) [
      | none ↦ none
      | some approval ↦
          if not (links_to approval.action_request_id action.id)
          then none
          else some (action, approval)
    ]
  ]

  unfoldable pub locked_pair : Tables D → Uuid → Option (ActionRequest × ApprovalRequest)
  locked_pair t approval_id = elim (t.approvals approval_id) [
    | none ↦ none
    | some probe ↦ pair_of t approval_id probe.action_request_id
  ]

  -- `_commit`: the value if the commit succeeds, else a rollback and an error.
  unfoldable pub commit_or_fail : {A : Type 0} → String → A → Session D → Outcome A × Session D
  commit_or_fail message value s =
      let (s', done) = commit s in
      if done then (returned value, s') else (raised (internal_error message), rollback s')

unfoldable pub is_expired : ActionRequest → ApprovalRequest → ℕ → Bool
is_expired action approval now = passed action.expires_at now || passed approval.expires_at now

-- Both rows are pending, and their time is over.
abbrev pub is_pending_expired : ActionRequest → ApprovalRequest → ℕ → Bool
is_pending_expired a p now =
    is_pending_approval a.status && is_pending p.status && is_expired a p now

-- `_require_pending`: the error, if any
unfoldable pub require_pending : ActionRequest → ApprovalRequest → ℕ → Option ServiceError
require_pending action approval now =
    if not (is_pending_approval action.status) || not (is_pending approval.status)
    then some already_processed
    else if is_expired action approval now
    then some expired_error
    else none

-- `{"action_status": …, "approval_status": …}`
abbrev pub statuses : ActionStatus → ApprovalStatus → Json
statuses a p = Json.obj (
    Json.field "action_status" (Json.str (status_value a))
      (Json.field "approval_status" (Json.str (approval_value p)) Json.end))

-- `dict(v or {})`, which raises (`none`) where `v` is no dict. A list of pairs would pass in Python;
-- no column that this is applied to holds one.
unfoldable pub dict_of : Json → Option Fields
dict_of (Json.obj fs) = some fs
dict_of v = if Json.truthy v then none else some Json.end

-- `_active_notifications`
unfoldable pub active_notifications : List Member → List Notification → List Notification
active_notifications users items =
    select
      (λ (n : Notification).
        any (λ (m : Member). m.user.id == n.recipient_user_id && is_active m.user.status) users)
      items
