-- ===== src/Actions/Tests/Lifecycle.antt =====
-- The theorems of Lifecycle at concrete inputs.
use queryops_ai.Prelude.{
  String, true, false, ◌&&◌, none, some, List, [], ◌∷◌, any, if◌then◌else◌, ◌≡◌, refl,
}
use queryops_ai.Prelude.Uuid.{Uuid}
use queryops_ai.Prelude.Json
use queryops_ai.Actions.Rows.{ActionStatus, ApprovalStatus, Notification, Tables}
use queryops_ai.Actions.Session.{start}
use queryops_ai.Actions.Lifecycle.Base.{
  returned, raised, not_found, links_to, locked_pair, commit_or_fail,
}
use queryops_ai.Actions.Lifecycle.Expire.{expire_one}
use queryops_ai.Actions.Lifecycle.Reject.{reject}
use queryops_ai.Actions.Lifecycle.Complete.{same_key, dedupe_notifications}
use queryops_ai.Actions.Lifecycle.Dedupe.{no_two, dedupe_notifications-exact}
use queryops_ai.Actions.Lifecycle.Failure.{commit_or_raise, fail_pair}
use queryops_ai.Actions.Lifecycle.Approve.{approve}
use queryops_ai.Actions.Lifecycle.Steps.{Moves}
use queryops_ai.Actions.Lifecycle.Refines.Locks.{both_pending}
use queryops_ai.Actions.Lifecycle.Refines.Expiry.{expired_tables, expire_one_lem}
use queryops_ai.Actions.Lifecycle.Refines.Failing.{failed_tables, fail_pair_lem}
use queryops_ai.Actions.Lifecycle.Refines.Rejection.{reject_outcome, reject_lem, reject-Moves}
use queryops_ai.Actions.Lifecycle.Refines.Attempting.{Settles}
use queryops_ai.Actions.Lifecycle.Refines.Approval.{approve-Settles}
use queryops_ai.Actions.Lifecycle.Invariant.{IsCoherent}
use queryops_ai.Actions.Lifecycle.Service.{
  IsDecided, idle, rejecting, approving, submitting, cancelling, Serves-IsCoherent,
  Serves-IsDecided,
}
use mathlib.Core.Option.{some-injective}
use queryops_ai.Actions.Rows.{ActionType}
use queryops_ai.Actions.Lifecycle.Refines.Running.{Execute, Agrees, with_executes, approve-Agrees}
use queryops_ai.Actions.Tests.{reclaim}
use queryops_ai.Prelude.{==_iff, sym, ◌==◌}
use queryops_ai.Actions.Requests.Submit.{submit_request}
use queryops_ai.Actions.Requests.Cancel.{cancel_request}
use queryops_ai.Actions.Tests.{
  requester, requester_context, around, drafted, drafted-IsCoherent, boss, boss_context, approval,
  waiting, finished, engine, engine-IsFair, iso, tables-IsKeyed, tables-IsCoherent,
  waiting-IsPendingPair,
}
use queryops_ai.Actions.Lifecycle.Base.{returned}
use queryops_ai.Actions.Tests.{waiting_action, waiting_approval}

-- The requester submits the draft, the boss rejects it, and somebody tries to approve it afterwards.
abbrev submitted : Tables (List Uuid)
submitted =
    (submit_request around requester requester_context "Unused." 20 6 false 5
      (start drafted [])).1.saved

abbrev rejected : Tables (List Uuid)
rejected = (reject boss 50 iso "Not now." boss_context 6 (start submitted [])).1.saved

abbrev approved_after : Tables (List Uuid)
approved_after = (approve iso engine boss boss_context "Fine." 60 6 (start rejected [])).1.saved

Serves-IsCoherent_example : IsCoherent approved_after
Serves-IsCoherent_example =
    Serves-IsCoherent engine engine-IsFair around engine-IsFair iso drafted drafted-IsCoherent
      approved_after
      (approving rejected boss boss_context 60 "Fine." 6 [] (
        rejecting submitted boss boss_context 50 "Not now." 6 []
          (submitting drafted requester requester_context 20 "Unused." 5 6 false [] refl idle)))

completed_is_decided : ¬ (ApprovalStatus.approved ≡ ApprovalStatus.pending)
completed_is_decided h = cc

abbrev cancelled_late : Tables (List Uuid)
cancelled_late =
    (cancel_request around requester requester_context "No need." 50 5 (start finished [])).1.saved

Serves-IsDecided_example : IsDecided cancelled_late 6 (approval ApprovalStatus.approved)
Serves-IsDecided_example =
    Serves-IsDecided engine engine-IsFair around engine-IsFair iso finished
      (tables-IsCoherent ActionStatus.completed ApprovalStatus.approved refl) cancelled_late 6
      (approval ApprovalStatus.approved) (refl, completed_is_decided)
      (cancelling finished requester requester_context 50 "No need." 5 [] idle)

-- An execution that fails at all other times.
abbrev only_at_60 : ActionType → Execute (List Uuid)
only_at_60 k d a u r n = if n == 60 then reclaim.execute d a u r n else none

only_at_60-Agrees : Agrees iso engine boss boss_context "Fine." 60 waiting 6 only_at_60
only_at_60-Agrees k handler registered d a u r n may =
    let is_reclaim : handler ≡ reclaim = some-injective handler reclaim (sym registered) in
    let at : (n == 60) ≡ true = (==_iff n 60).1 may.when in rw (is_reclaim, at) refl

approve-Agrees_example :
    approve iso engine boss boss_context "Fine." 60 6 (start waiting [])
    ≡ approve iso
        (with_executes engine only_at_60)
        boss
        boss_context
        "Fine."
        60
        6
        (start waiting [])
approve-Agrees_example =
    approve-Agrees iso engine boss boss_context "Fine." 60 waiting 6 only_at_60 [] only_at_60-Agrees

approve-Settles_example :
    Settles engine waiting (approve iso engine boss boss_context "Fine." 60 6 (start waiting []))
approve-Settles_example =
    approve-Settles iso engine boss boss_context "Fine." 60 waiting
      (tables-IsKeyed ActionStatus.pending_approval ApprovalStatus.pending) [] (λ b keyed. keyed) 6

reject_example :
    reject boss 50 iso "Not now." boss_context 6 (start waiting (false ∷ []))
    ≡ (elim (locked_pair waiting 6) [
      | none ↦ (raised not_found, start waiting (false ∷ []))
      | some (a, p) ↦ reject_outcome boss 50 iso "Not now." a p waiting boss_context (false ∷ [])
    ])
reject_example =
    reject_lem boss 50 iso "Not now." boss_context waiting
      (tables-IsKeyed ActionStatus.pending_approval ApprovalStatus.pending) (false ∷ []) 6

reject-Moves_example :
    Moves waiting (reject boss 50 iso "Not now." boss_context 6 (start waiting [])).1
reject-Moves_example =
    reject-Moves boss 50 iso "Not now." boss_context waiting
      (tables-IsKeyed ActionStatus.pending_approval ApprovalStatus.pending) [] 6

expire_one_example : expire_one boss waiting_action waiting_approval 200 (start waiting []) ≡ (
    if true && true
    then commit_or_fail "The expired approval could not be updated safely." true (record {
      saved = waiting;
      working = expired_tables boss waiting_action waiting_approval 200 waiting;
      commits = [];
    })
    else (returned false, start waiting []))
expire_one_example =
    expire_one_lem boss waiting_action waiting_approval 200 waiting waiting-IsPendingPair []

fail_pair_example :
    fail_pair boss "Fine." 60 "execution_failed" waiting_action waiting_approval (start waiting [])
    ≡ (if both_pending waiting_action waiting_approval
          && links_to waiting_approval.action_request_id 5
        then commit_or_raise boss "Fine." 60 "execution_failed" (record {
          saved = waiting;
          working =
              failed_tables boss "Fine." 60 "execution_failed" waiting waiting_action
                waiting_approval;
          commits = [];
        })
        else (some false, start waiting []))
fail_pair_example =
    fail_pair_lem boss "Fine." 60 "execution_failed" waiting waiting_action waiting_approval [] refl
      refl

abbrev news : String → Notification
news kind = record {
  recipient_user_id = 1;
  actor_user_id = 2;
  notification_type = kind;
  title = "Action completed";
  body = "Done.";
  status = "unread";
  related_resource_type = "action_request";
  related_resource_id = 5;
  payload = Json.null;
}

dedupe_notifications_example :
    let items = news "action_completed" ∷ news "action_approved" ∷ news "action_completed" ∷ [] in
    (no_two (dedupe_notifications items) ≡ true)
    × (any (same_key (news "action_approved")) (dedupe_notifications items)
        ≡ any (same_key (news "action_approved")) items)
dedupe_notifications_example =
    dedupe_notifications-exact
      (news "action_completed" ∷ news "action_approved" ∷ news "action_completed" ∷ [])
      (news "action_approved")
