-- ===== src/Actions/Tests/Success.antt =====
-- A request that is approved and executed.
use queryops_ai.Prelude.{ap, List, true, some, [], ◌∷◌, ◌≡◌, refl}
use queryops_ai.Prelude.Json
use queryops_ai.Actions.Rows.{ActionRequest, ActionStatus, ApprovalStatus, Tables}
use queryops_ai.Actions.Notifications.{approval_decision}
use queryops_ai.Prelude.Uuid.{Uuid}
use queryops_ai.Actions.Session.{Session, start}
use queryops_ai.Actions.Lifecycle.Base.{Outcome, returned, locked_pair}
use queryops_ai.Actions.Lifecycle.Handlers.{is_stable_execution_set}
use queryops_ai.Actions.Lifecycle.Approve.{ApproveReply, approve}
use queryops_ai.Actions.Tests.{
  boss, boss_context, waiting, licenses, engine, iso, waiting-IsPendingPair,
}
use queryops_ai.Prelude.Int.{pos}
use queryops_ai.Actions.Policy.{evaluate_action_approval}
use queryops_ai.Actions.Rows.{ActionType}
use queryops_ai.Actions.Lifecycle.Base.{returned}
use queryops_ai.Actions.Lifecycle.Complete.{completed_action}
use queryops_ai.Actions.Lifecycle.Handlers.{require_action_revalidation}
use queryops_ai.Actions.Lifecycle.Approve.{current_question}
use queryops_ai.Actions.Lifecycle.Refines.Attempting.{IsPendingPair-domain}
use queryops_ai.Actions.Lifecycle.Refines.Success.{
  success_reply, at_rest, completed_tables, approve-success,
}
use queryops_ai.Actions.Tests.{reclaim, waiting_action, waiting_approval}
use queryops_ai.Actions.Lifecycle.Reject.{reject}
use queryops_ai.Actions.Lifecycle.Service.{rejecting, idle}
use queryops_ai.Actions.Lifecycle.Once.{IsRefused, approve_at_most_once}
use queryops_ai.Actions.Tests.{around, engine-IsFair, tables-IsCoherent}
use queryops_ai.Prelude.Sorting.{sort_by}
use queryops_ai.Prelude.Json
use queryops_ai.Actions.Notifications.{approval_question}
use queryops_ai.Actions.Lifecycle.Base.{dict_of}
use queryops_ai.Actions.Lifecycle.Skips.{override_reason_records, skip_counts, prior_records}

abbrev completed_row : ActionRequest
completed_row = record waiting_action {
  status = ActionStatus.completed;
  approved_at = some 60;
  executed_at = some 60;
  completed_at = some 60;
  skipped_records_json = Json.obj (
      Json.field "records" (Json.arr Json.nil)
        (Json.field "exclusions_by_reason" (Json.arr Json.nil) Json.end));
  skipped_count = 0;
  preview_json = Json.obj (
      Json.field "summary" (Json.obj (Json.field "skipped_count" (Json.num (pos 0)) Json.end))
        Json.end);
}

row_completes : completed_action (licenses (40 ∷ 41 ∷ [])) 60 waiting_action ≡ some completed_row
unfolding completed_action override_reason_records Json.has skip_counts prior_records Json.get
    dict_of Json.truthy Json.set Json.of_list sort_by
row_completes = refl

both_stable : is_stable_execution_set (licenses (40 ∷ 41 ∷ [])) (licenses (40 ∷ 41 ∷ [])) ≡ true
unfolding is_stable_execution_set
both_stable = refl

boss_may_now :
    (evaluate_action_approval boss_context (
      current_question iso engine boss boss_context "Fine." 60 waiting_action
        (licenses (40 ∷ 41 ∷ [])))).allowed
    ≡ true
unfolding evaluate_action_approval
boss_may_now = refl

boss_may : (approval_decision waiting_action boss_context).allowed ≡ true
unfolding approval_decision evaluate_action_approval approval_question Json.get
boss_may = refl

waiting_locked : locked_pair waiting 6 ≡ some (waiting_action, waiting_approval)
unfolding locked_pair
waiting_locked = refl

revalidates :
    require_action_revalidation ActionType.reclaim_unused_license (some (licenses (40 ∷ 41 ∷ [])))
    ≡ some (licenses (40 ∷ 41 ∷ []))
unfolding require_action_revalidation
revalidates = refl

approve-success_example : approve iso engine boss boss_context "Fine." 60 6 (start waiting []) ≡ (
  returned (
      success_reply iso engine boss boss_context "Fine." 60 waiting_action waiting_approval
        completed_row
        (licenses (40 ∷ 41 ∷ []))
        (40 ∷ 41 ∷ [])),
  at_rest iso engine boss boss_context "Fine." 60 waiting_action waiting_approval (
      completed_tables iso engine boss boss_context "Fine." 60 waiting_action waiting_approval
        waiting
        (IsPendingPair-domain waiting
          (40 ∷ 41 ∷ [])
          waiting_action
          waiting_approval
          waiting-IsPendingPair)
        completed_row
        (licenses (40 ∷ 41 ∷ []))
        (40 ∷ 41 ∷ [])
        []),
)
approve-success_example =
    approve-success iso engine boss boss_context "Fine." 60 waiting_action waiting_approval waiting
      waiting-IsPendingPair reclaim (licenses (40 ∷ 41 ∷ [])) (licenses (40 ∷ 41 ∷ []))
      (40 ∷ 41 ∷ []) (40 ∷ 41 ∷ []) [] completed_row refl refl refl revalidates refl revalidates
      both_stable boss_may_now refl row_completes 6 waiting_locked refl boss_may

replied :
    (approve iso engine boss boss_context "Fine." 60 6 (start waiting [])).0
    ≡ returned (
        success_reply iso engine boss boss_context "Fine." 60 waiting_action waiting_approval
          completed_row
          (licenses (40 ∷ 41 ∷ []))
          (40 ∷ 41 ∷ []))
replied =
    ap (λ (x : Outcome ApproveReply × Session (List Uuid)). x.0)
      (approve-success iso engine boss boss_context "Fine." 60 waiting_action waiting_approval
        waiting waiting-IsPendingPair reclaim (licenses (40 ∷ 41 ∷ [])) (licenses (40 ∷ 41 ∷ []))
        (40 ∷ 41 ∷ []) (40 ∷ 41 ∷ []) [] completed_row refl refl refl revalidates refl revalidates
        both_stable boss_may_now refl row_completes 6 waiting_locked refl boss_may)

abbrev afterwards : Tables (List Uuid)
afterwards = (approve iso engine boss boss_context "Fine." 60 6 (start waiting [])).1.saved

-- The boss tries to reject the request, and then to approve it again.
abbrev rejected_late : Tables (List Uuid)
rejected_late =
    (reject boss 70 iso "On second thought." boss_context 6 (start afterwards [])).1.saved

approve_at_most_once_example :
    IsRefused
      (approve iso engine boss boss_context "Again." 80 6 (start rejected_late []))
      (start rejected_late [])
approve_at_most_once_example =
    approve_at_most_once engine around iso waiting rejected_late boss boss_context "Fine." 60 6 []
      (success_reply iso engine boss boss_context "Fine." 60 waiting_action waiting_approval
        completed_row (licenses (40 ∷ 41 ∷ [])) (40 ∷ 41 ∷ []))
      engine-IsFair engine-IsFair
      (tables-IsCoherent ActionStatus.pending_approval ApprovalStatus.pending refl) replied
      (rejecting afterwards boss boss_context 70 "On second thought." 6 [] idle) engine boss
      boss_context 80 "Again." []
