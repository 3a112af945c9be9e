-- ===== src/Actions/Requests/Refines/Submitting.antt =====
-- `submit_request`
use queryops_ai.Prelude.{
  ℕ, String, Bool, not, Option, none, some, List, ◌==◌, ◌≡◌, refl, ap, subst, ◌∙◌, ◌⊎◌, inl, inr,
  Option-cases, if-cases,
}
use queryops_ai.Prelude.Uuid.{Uuid}
use queryops_ai.Auth.Permissions.{AppUser}
use queryops_ai.Auth.Context.{UserAccessContext, has_permission}
use queryops_ai.Actions.Policy.{request_permission}
use queryops_ai.Actions.Rows.{ActionRequest, ApprovalRequest, ActionStatus, Tables}
use queryops_ai.Actions.Session.{Session, start}
use queryops_ai.Actions.Lifecycle.Base.{Outcome, returned, raised, crashed, passed}
use queryops_ai.Actions.Lifecycle.Invariant.{IsCoherent}
use queryops_ai.Actions.Requests.{Surroundings, ActionReply, approval_of, owned_action}
use queryops_ai.Actions.Requests.Expire.{ExpirationKind}
use queryops_ai.Actions.Requests.Submit.{
  submit_draft, pending_again, submit_again, submit_by_status, submit_owned, submit_request,
}
use queryops_ai.Actions.Requests.Changes.{Acts}
use queryops_ai.Actions.Requests.Refines.Loading.{approval_of_sound}
use queryops_ai.Actions.Requests.Refines.Expiry.{Told, expire_action_request-Told}
use queryops_ai.Actions.Requests.Refines.Waiting.{SubmitTold, serialize-Told}
use queryops_ai.Actions.Requests.Refines.Writing.{submit_new-Told}
use queryops_ai.Actions.Requests.Refines.Cancelling.{owned_action_sound}

module _ {D : Type 0} (around : Surroundings D) (user : AppUser) (context : UserAccessContext)
    (reason : String) (now : ℕ) (fresh_id : Uuid) (is_integrity_error : Bool) (t : Tables D) where
  -- Nothing was done, or nothing beside what others did.
  unchanged :
      (commits : List Bool)
      → ((b : Tables D) × ((b ≡ t) ⊎ (b ≡ around.meanwhile t)) × Acts b (start t commits))
        × Unit {0}
  unchanged commits = ((t, inl refl, inl refl), tt)

  unanswered :
      (id : Uuid) (r : Outcome ActionReply × Session D)
      → Told (λ _ _. ⊥) t r
      → SubmitTold around id user.id t r
  unanswered id (returned x, s) h = absurd h
  unanswered id (raised e, s) h = ((t, inl refl, h), tt)
  unanswered id (crashed, s) h = ((t, inl refl, h), tt)

  module _ (c : IsCoherent t) (later : IsCoherent (around.meanwhile t))
      (unused : t.approvals fresh_id ≡ none) (a : ActionRequest) (found : t.actions a.id ≡ some a)
      (mine : a.requested_by_app_user_id ≡ user.id) where
    submit_draft-Told :
        (commits : List Bool)
        → a.status ≡ ActionStatus.draft_preview
        → SubmitTold around a.id user.id t (
            submit_draft around user context reason now fresh_id is_integrity_error a
              (start t commits))
    unfolding submit_draft
    submit_draft-Told commits draft =
        if-cases (SubmitTold around a.id user.id t) (passed a.preview_expires_at now) _ _
          (λ late. unanswered a.id _ (
            expire_action_request-Told user now ExpirationKind.draft_preview t c commits a found
              (inl draft) (λ _ _. ⊥)))
          (λ _.
            if-cases (SubmitTold around a.id user.id t) (not (around.validates a)) _ _
              (λ _. unchanged commits)
              (λ _.
                if-cases (SubmitTold around a.id user.id t) (a.record_count == 0) _ _
                  (λ _. unchanged commits)
                  (λ _.
                    submit_new-Told around user context reason now fresh_id is_integrity_error t c
                      later unused a found mine commits draft)))

    pending_again-Told :
        (commits : List Bool) (approval : Option ApprovalRequest)
        → a.status ≡ ActionStatus.pending_approval
        → approval_of t a ≡ approval
        → SubmitTold around a.id user.id t (
            pending_again around user context reason now fresh_id is_integrity_error a approval
              (start t commits))
    pending_again-Told commits none status load = unchanged commits
    pending_again-Told commits (some p) status load =
        let (at_p, linked) = approval_of_sound c a p load in
        serialize-Told around user context now t a.id a p (start t commits) t (inl refl) (inl refl)
          status (a, p, found, mine, status, at_p, linked)

    submit_again-Told :
        (commits : List Bool)
        → a.status ≡ ActionStatus.pending_approval
        → SubmitTold around a.id user.id t (
            submit_again around user context reason now fresh_id is_integrity_error a
              (start t commits))
    unfolding submit_again
    submit_again-Told commits status =
        if-cases (SubmitTold around a.id user.id t) (passed a.expires_at now) _ _
          (λ late. unanswered a.id _ (
            expire_action_request-Told user now ExpirationKind.pending_approval t c commits a found
              (inr status) (λ _ _. ⊥)))
          (λ _.
            if-cases (SubmitTold around a.id user.id t) (not (around.validates a)) _ _
              (λ _. unchanged commits)
              (λ _. pending_again-Told commits (approval_of t a) status refl))

    submit_by_status-Told :
        (commits : List Bool) (status : ActionStatus)
        → a.status ≡ status
        → SubmitTold around a.id user.id t (
            submit_by_status around user context reason now fresh_id is_integrity_error status a
              (start t commits))
    submit_by_status-Told commits ActionStatus.pending_approval is = submit_again-Told commits is
    submit_by_status-Told commits ActionStatus.draft_preview is = submit_draft-Told commits is
    submit_by_status-Told commits ActionStatus.approved_executing is = unchanged commits
    submit_by_status-Told commits ActionStatus.completed is = unchanged commits
    submit_by_status-Told commits ActionStatus.rejected is = unchanged commits
    submit_by_status-Told commits ActionStatus.failed is = unchanged commits
    submit_by_status-Told commits ActionStatus.cancelled is = unchanged commits
    submit_by_status-Told commits ActionStatus.expired is = unchanged commits

    submit_owned-Told :
        (commits : List Bool)
        → SubmitTold around a.id user.id t (
            submit_owned around user context reason now fresh_id is_integrity_error a
              (start t commits))
    unfolding submit_owned
    submit_owned-Told commits =
        if-cases (SubmitTold around a.id user.id t) (not (around.is_registered a.action_type)) _ _
          (λ _. unchanged commits) (λ _. submit_by_status-Told commits a.status refl)

  -- `submit_request` refines the changes that a requester may make, on tables that are coherent and that
  -- others keep so, with a fresh id for the approval, for every user, request, and outcome of its
  -- commit: what others can see after it is what it found or what they have made of that themselves, or one change further. If it answers,
  -- then the user's request waits, with a linked approval in the tables, and the status in the answer
  -- says so.
  pub submit_request-Told :
      (c : IsCoherent t)
      → IsCoherent (around.meanwhile t)
      → t.approvals fresh_id ≡ none
      → (commits : List Bool) (id : Uuid)
      → SubmitTold around id user.id t (
          submit_request around user context reason now fresh_id is_integrity_error id
            (start t commits))
  unfolding submit_request
  submit_request-Told c later unused commits id =
      if-cases (SubmitTold around id user.id t) (not (has_permission context request_permission)) _
        _ (λ _. unchanged commits)
        (λ _. elim (Option-cases (owned_action t id user.id)) [
          | inl e ↦ rw e (unchanged commits)
          | inr (a, e) ↦
              let (at, mine) = owned_action_sound t id user.id e in
              let is_id = c.keyed.actions id a at in
              rw e (
                subst
                  (λ (i : Uuid). SubmitTold around i user.id t (
                    submit_owned around user context reason now fresh_id is_integrity_error a
                      (start t commits)))
                  is_id (submit_owned-Told c later unused a (ap t.actions is_id ∙ at) mine commits))
        ])
