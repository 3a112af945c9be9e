-- ===== src/Actions/Presentation.antt =====
-- backend/app/action_engine/presentation.py
use queryops_ai.Prelude.{String, List, [], ◌∷◌}
use queryops_ai.Actions.Rows.{ActionType}

pub record ActionPresentation : Type 0 where
  pub request_title : String
  pub pending_body : String
  pub preview_summary : String
  pub requested_summary : String
  pub cancelled_summary : String
  pub rejected_summary : String
  pub rejected_body : String
  pub approved_summary : String
  pub executed_summary : String
  pub approved_body : String
  pub completed_body : String
  pub approver_completed_body : String
  pub target_id_field : String
  pub status_field : String
  pub before_status : String
  pub after_status : String
  pub estimated_impact_keys : List String

unfoldable pub action_presentation : ActionType → ActionPresentation
action_presentation ActionType.reclaim_unused_license = record {
  request_title = "Reclaim unused licenses";
  pending_body = "A reclaim unused license request is ready for review.";
  preview_summary = "Reclaim unused license preview created.";
  requested_summary = "Reclaim unused license request submitted for approval.";
  cancelled_summary = "Reclaim unused license request cancelled by the requester.";
  rejected_summary = "Reclaim unused license request rejected.";
  rejected_body = "Your reclaim unused license request was rejected.";
  approved_summary = "Reclaim unused license request approved for synchronous execution.";
  executed_summary = "Reclaim unused license action completed.";
  approved_body = "Your reclaim unused license request was approved.";
  completed_body = "Your reclaim unused license action completed.";
  approver_completed_body = "The reclaim unused license action completed.";
  target_id_field = "license_assignment_id";
  status_field = "status";
  before_status = "active";
  after_status = "reclaimed";
  estimated_impact_keys = "estimated_monthly_savings" ∷ [];
}
action_presentation ActionType.disable_inactive_user = record {
  request_title = "Disable inactive users";
  pending_body = "A disable inactive user request is ready for review.";
  preview_summary = "Disable inactive user preview created.";
  requested_summary = "Disable inactive user request submitted for approval.";
  cancelled_summary = "Disable inactive user request cancelled by the requester.";
  rejected_summary = "Disable inactive user request rejected.";
  rejected_body = "Your disable inactive user request was rejected.";
  approved_summary = "Disable inactive user request approved for synchronous execution.";
  executed_summary = "Disable inactive user action completed.";
  approved_body = "Your disable inactive user request was approved.";
  completed_body = "Your disable inactive user action completed.";
  approver_completed_body = "The disable inactive user action completed.";
  target_id_field = "directory_user_id";
  status_field = "account_status";
  before_status = "active";
  after_status = "disabled";
  estimated_impact_keys = [];
}
