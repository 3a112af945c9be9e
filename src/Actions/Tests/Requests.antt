-- ===== src/Actions/Tests/Requests.antt =====
-- The theorems of Requests at concrete inputs.
use queryops_ai.Prelude.{false, [], refl}
use queryops_ai.Actions.Rows.{ActionStatus, ApprovalStatus}
use queryops_ai.Actions.Session.{start}
use queryops_ai.Actions.Requests.Submit.{submit_request}
use queryops_ai.Actions.Requests.Cancel.{cancel_request}
use queryops_ai.Actions.Requests.Refines.Expiry.{Told}
use queryops_ai.Actions.Requests.Refines.Cancelling.{Cancelled, cancel_request-Told}
use queryops_ai.Actions.Requests.Refines.Waiting.{SubmitTold}
use queryops_ai.Actions.Requests.Refines.Submitting.{submit_request-Told}
use queryops_ai.Actions.Tests.{
  requester, requester_context, around, drafted, drafted-IsCoherent, waiting, tables-IsCoherent,
}

cancel_request_example :
    Told
      (Cancelled waiting)
      waiting
      (cancel_request around requester requester_context "No need." 50 5 (start waiting []))
cancel_request_example =
    cancel_request-Told around requester requester_context "No need." 50 waiting
      (tables-IsCoherent ActionStatus.pending_approval ApprovalStatus.pending refl) [] 5

submit_request_example :
    SubmitTold around 5 1 drafted
      (submit_request around requester requester_context "Unused." 20 6 false 5 (start drafted []))
submit_request_example =
    submit_request-Told around requester requester_context "Unused." 20 6 false drafted
      drafted-IsCoherent drafted-IsCoherent refl [] 5
