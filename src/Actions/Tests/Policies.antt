-- ===== src/Actions/Tests/Policies.antt =====
-- The theorems on policies and recipients at concrete inputs.
use queryops_ai.Prelude.{true, false, ◌&&◌, ◌||◌, List, [], ◌∷◌, ◌==◌, any, ◌≡◌}
use queryops_ai.Prelude.Int.{pos}
use queryops_ai.Auth.Permissions.{is_active}
use queryops_ai.Auth.Context.{has_permission}
use queryops_ai.Actions.Policy.{
  ApprovalQuestion, request_permission, needs_global_approval, is_empty, evaluate_action_request,
  evaluate_action_approval,
}
use queryops_ai.Actions.Policy.Approvals.{
  covers, may_approve, evaluate_action_request-allowed, evaluate_action_approval-allowed,
  evaluate_action_approval-flags,
}
use queryops_ai.Actions.Rows.{ActionStatus, Member}
use queryops_ai.Actions.Notifications.{approval_question, eligible_approvers}
use queryops_ai.Actions.Notifications.Recipients.{any-eligible_approvers}
use queryops_ai.Actions.Tests.{boss, boss_context, action}
use queryops_ai.Prelude.{refl}
use queryops_ai.Prelude.Json
use queryops_ai.Prelude.Json.{Fields}
use queryops_ai.Actions.Audit.{safe_audit_metadata}
use queryops_ai.Prelude.{none, some}
use queryops_ai.Actions.Audit.Safe.{entry, logged, safe_audit_metadata_exact}
use queryops_ai.Actions.Tests.{waiting_action}

evaluate_action_request_example :
    (evaluate_action_request boss_context "department" "sales").allowed
    ≡ (has_permission boss_context request_permission && covers boss_context "department" "sales")
evaluate_action_request_example = evaluate_action_request-allowed boss_context "department" "sales"

abbrev question : ApprovalQuestion
question = record {
  requester_app_user_id = 1;
  scope_type = "department";
  scope_key = "sales";
  record_count = pos 20;
  crosses_scopes = false;
  requires_policy_override = false;
}

evaluate_action_approval_example :
    (evaluate_action_approval boss_context question).allowed ≡ may_approve boss_context question
evaluate_action_approval_example = evaluate_action_approval-allowed boss_context question

evaluate_action_approval-flags_example :
    let d = evaluate_action_approval boss_context question in
    (d.allowed ≡ true
      → (d.self_approved ≡ false)
        × (d.requires_admin ≡ (needs_global_approval question || false))
        × (is_empty d.matched_scopes ≡ false))
    × (d.allowed ≡ false → (d.self_approved ≡ false) × (d.matched_scopes ≡ []))
evaluate_action_approval-flags_example = evaluate_action_approval-flags boss_context question

eligible_approvers_example :
    let users : List Member = record { user = boss; context = boss_context } ∷ [] in
    let a = action ActionStatus.pending_approval in
    any (λ m. m.user.id == 2) (eligible_approvers users a)
    ≡ any
        (λ m.
          (is_active m.user.status && may_approve m.context (approval_question a))
          && m.user.id == 2)
        users
eligible_approvers_example =
    any-eligible_approvers (λ m. m.user.id == 2)
      (record { user = boss; context = boss_context } ∷ []) (action ActionStatus.pending_approval)

-- A password must not get through; a count may.
abbrev event_metadata : Fields
event_metadata =
    Json.field "password" (Json.str "secret")
      (Json.field "executed_count" (Json.num (pos 2)) Json.end)

safe_audit_metadata_example :
    entry (safe_audit_metadata waiting_action event_metadata) "password"
    ≡ logged waiting_action event_metadata "password"
safe_audit_metadata_example = safe_audit_metadata_exact waiting_action event_metadata "password"

nothing_logged : logged waiting_action event_metadata "password" ≡ none
unfolding Json.get
nothing_logged = refl

count_logged : logged waiting_action event_metadata "executed_count" ≡ some (Json.num (pos 2))
unfolding Json.get
count_logged = refl
