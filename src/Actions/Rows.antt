-- ===== src/Actions/Rows.antt =====
-- The rows of backend/app/models/product.py that the action engine reads and writes.
use queryops_ai.Prelude.{ℕ, String, Bool, true, false, Option, List}
use queryops_ai.Prelude.Uuid.{Uuid}
use queryops_ai.Prelude.Json.{Json}
use queryops_ai.Auth.Permissions.{AppUser}
use queryops_ai.Auth.Context.{UserAccessContext}

pub data ActionType : Type 0 where
  reclaim_unused_license disable_inactive_user : ActionType

pub data ActionStatus : Type 0 where
  draft_preview pending_approval approved_executing completed rejected failed cancelled expired :
      ActionStatus

pub data ApprovalStatus : Type 0 where
  pending approved rejected cancelled expired : ApprovalStatus

-- `SupportedActionType.value`
unfoldable pub type_value : ActionType → String
type_value ActionType.reclaim_unused_license = "reclaim_unused_license"
type_value ActionType.disable_inactive_user = "disable_inactive_user"

-- `ActionRequestStatus.value`
unfoldable pub status_value : ActionStatus → String
status_value ActionStatus.draft_preview = "draft_preview"
status_value ActionStatus.pending_approval = "pending_approval"
status_value ActionStatus.approved_executing = "approved_executing"
status_value ActionStatus.completed = "completed"
status_value ActionStatus.rejected = "rejected"
status_value ActionStatus.failed = "failed"
status_value ActionStatus.cancelled = "cancelled"
status_value ActionStatus.expired = "expired"

-- `ApprovalStatus.value`
unfoldable pub approval_value : ApprovalStatus → String
approval_value ApprovalStatus.pending = "pending"
approval_value ApprovalStatus.approved = "approved"
approval_value ApprovalStatus.rejected = "rejected"
approval_value ApprovalStatus.cancelled = "cancelled"
approval_value ApprovalStatus.expired = "expired"

abbrev pub is_pending_approval : ActionStatus → Bool
is_pending_approval ActionStatus.pending_approval = true
is_pending_approval _ = false

abbrev pub is_pending : ApprovalStatus → Bool
is_pending ApprovalStatus.pending = true
is_pending _ = false

abbrev pub same_type : ActionType → ActionType → Bool
same_type ActionType.reclaim_unused_license ActionType.reclaim_unused_license = true
same_type ActionType.disable_inactive_user ActionType.disable_inactive_user = true
same_type _ _ = false

-- Instants are numbers; `_as_utc` reads each of them as the same instant.
pub record ActionRequest : Type 0 where
  pub id : Uuid
  pub action_type : ActionType
  pub requested_by_app_user_id : Uuid
  pub department_id : Option Uuid
  pub scope_id : Option Uuid
  pub scope_type : Option String
  pub scope_key : Option String
  pub preview_json : Json
  pub policy_flags_json : Json
  pub skipped_records_json : Json
  pub status : ActionStatus
  pub priority : String
  pub reason : Option String
  pub requires_admin : Bool
  pub record_count : ℕ
  pub skipped_count : ℕ
  pub failure_reason_user_safe : Option String
  pub failure_reason_internal : Option String
  pub preview_generated_at : Option ℕ
  pub preview_expires_at : Option ℕ
  pub submitted_at : Option ℕ
  pub approved_at : Option ℕ
  pub executed_at : Option ℕ
  pub completed_at : Option ℕ
  pub expires_at : Option ℕ

pub record ApprovalRequest : Type 0 where
  pub id : Uuid
  pub requester_user_id : Option Uuid
  pub query_run_id : Option Uuid
  pub action_request_id : Option Uuid
  pub request_type : String
  pub title : String
  pub description : Option String
  pub target_type : Option String
  pub target_id : Option Uuid
  pub payload : Json
  pub policy_snapshot : Json
  pub status : ApprovalStatus
  pub decided_by_user_id : Option Uuid
  pub decision_reason : Option String
  pub decided_at : Option ℕ
  pub required_approver_role : Option String
  pub expires_at : Option ℕ

pub record AuditLog : Type 0 where
  pub actor_user_id : Uuid
  pub action_request_id : Uuid
  pub approval_request_id : Option Uuid
  pub department_id : Option Uuid
  pub scope_id : Option Uuid
  pub scope_type : Option String
  pub scope_key : Option String
  pub severity : String
  pub event_type : String
  pub action : String
  pub status : String
  pub entity_type : String
  pub entity_id : Uuid
  pub summary : String
  pub audit_metadata : Json
  pub before_state_json : Json
  pub after_state_json : Json
  pub self_approved : Option Bool

pub record Notification : Type 0 where
  pub recipient_user_id : Uuid
  pub actor_user_id : Uuid
  pub notification_type : String
  pub title : String
  pub body : String
  pub status : String
  pub related_resource_type : String
  pub related_resource_id : Uuid
  pub payload : Json

-- A user with the context that `build_user_access_context` gives for it.
pub record Member : Type 0 where
  pub user : AppUser
  pub context : UserAccessContext

-- Rows are found by their primary key; `approval_keys` are those of the approvals. `D` is what the action handlers read and write.
pub record Tables (D : Type 0) : Type 0 where
  pub actions : Uuid → Option ActionRequest
  pub approvals : Uuid → Option ApprovalRequest
  pub approval_keys : List Uuid
  pub users : List Member
  pub audits : List AuditLog
  pub notifications : List Notification
  pub domain : D
