-- ===== src/Actions/Requests/Refines/Writing.antt =====
-- `submit_request`, where it writes the request, and where its commit meets that of another transaction.
use queryops_ai.Prelude.{
  ℕ, String, Bool, true, false, Option, none, some, List, [], ◌∷◌, ◌≡◌, refl, sym, ap, subst, ◌∙◌,
  ◌⊎◌, inl, inr, Bool-cases, if-cases, ==_refl,
}
use queryops_ai.Prelude.Uuid.{Uuid}
use queryops_ai.Auth.Permissions.{AppUser}
use queryops_ai.Auth.Context.{UserAccessContext}
use queryops_ai.Actions.Rows.{ActionRequest, ApprovalRequest, ActionStatus, Tables}
use queryops_ai.Actions.Session.{Session, start, put, commit, rollback}
use queryops_ai.Actions.Lifecycle.Base.{links_to}
use queryops_ai.Actions.Lifecycle.Invariant.{IsCoherent}
use queryops_ai.Actions.Requests.{Surroundings, approval_of, owned_action}
use queryops_ai.Actions.Requests.Submit.{
  submitted_action, new_approval, submit_work, existing_approval, existing_pending, after_conflict,
  submit_new,
}
use queryops_ai.Actions.Requests.Changes.{IsUnlinked, Submission, submits, Acts}
use queryops_ai.Actions.Requests.Refines.Loading.{approval_of_sound}
use queryops_ai.Actions.Requests.Refines.Expiry.{draft_never}
use queryops_ai.Actions.Requests.Refines.Waiting.{IsWaiting, SubmitTold, serialize-Told}
use queryops_ai.Actions.Requests.Refines.Cancelling.{owned_action_sound}

put_self : {A : Type 0} (rows : Uuid → Option A) (k : Uuid) (r : A) → put rows k r k ≡ some r
put_self rows k r = rw (==_refl k) refl

module _ {D : Type 0} (around : Surroundings D) (user : AppUser) (context : UserAccessContext)
    (reason : String) (now : ℕ) (fresh_id : Uuid) (is_integrity_error : Bool) (t : Tables D) where
  theirs :
      (s : Session D)
      → s.saved ≡ around.meanwhile t
      → ((b : Tables D) × ((b ≡ t) ⊎ (b ≡ around.meanwhile t)) × Acts b s) × Unit {0}
  theirs s e = ((around.meanwhile t, inr refl, inl e), tt)

  module _ (c : IsCoherent t) (later : IsCoherent (around.meanwhile t))
      (unused : t.approvals fresh_id ≡ none) (a : ActionRequest) (found : t.actions a.id ≡ some a)
      (mine : a.requested_by_app_user_id ≡ user.id) where
    draft-IsUnlinked : a.status ≡ ActionStatus.draft_preview → IsUnlinked t a.id
    draft-IsUnlinked draft k p at = elim (Bool-cases (links_to p.action_request_id a.id)) [
      | inr free ↦ free
      | inl linked ↦
          absurd (cc (draft, draft_never p.status, c.together k a.id p a at found linked))
    ]

    abbrev submitted_tables : Tables D
    submitted_tables =
        (submit_work around user context reason now fresh_id is_integrity_error a
          (start t [])).working

    submitted_tables-Submission :
        a.status ≡ ActionStatus.draft_preview → Submission t submitted_tables
    unfolding submit_work
    submitted_tables-Submission draft = record {
      a = a;
      a' = submitted_action reason now a;
      p = new_approval user reason (submitted_action reason now a) fresh_id;
      found = found;
      draft_before = draft;
      unlinked = draft-IsUnlinked draft;
      fresh = unused;
      same_id = refl;
      linked = refl;
      action_pending = refl;
      approval_pending = refl;
      actions = λ j. refl;
      approvals = λ j. refl;
      keys = refl;
      log = _;
      audited = refl;
      domain = refl;
    }

    submitted-IsWaiting : IsWaiting a.id user.id submitted_tables
    unfolding submit_work
    submitted-IsWaiting = (
      submitted_action reason now a,
      new_approval user reason (submitted_action reason now a) fresh_id,
      put_self t.actions a.id (submitted_action reason now a),
      mine,
      refl,
      put_self t.approvals fresh_id
          (new_approval user reason (submitted_action reason now a) fresh_id),
      ==_refl a.id,
    )

    existing_approval-Told :
        (id : Uuid) (b : ActionRequest) (s : Session D) (approval : Option ApprovalRequest)
        → s.saved ≡ around.meanwhile t
        → s.working ≡ s.saved
        → s.saved.actions id ≡ some b
        → b.requested_by_app_user_id ≡ user.id
        → b.status ≡ ActionStatus.pending_approval
        → approval_of s.working b ≡ approval
        → SubmitTold around id user.id t (
            existing_approval around user context reason now fresh_id is_integrity_error b approval
              s)
    existing_approval-Told id b s none e same at own_b status load = theirs s e
    existing_approval-Told id b s (some p) e same at own_b status load =
        let (at_p, linked) = approval_of_sound (subst IsCoherent (sym (same ∙ e)) later) b p load in
        serialize-Told around user context now t id b p s (around.meanwhile t) (inr refl) (inl e)
          status
          (
            b,
            p,
            at,
            own_b,
            status,
            ap (λ (u : Tables D). u.approvals p.id) (sym same) ∙ at_p,
            linked,
          )

    existing_pending-Told :
        (id : Uuid) (status : ActionStatus) (b : ActionRequest) (s : Session D)
        → b.status ≡ status
        → s.saved ≡ around.meanwhile t
        → s.working ≡ s.saved
        → s.saved.actions id ≡ some b
        → b.requested_by_app_user_id ≡ user.id
        → SubmitTold around id user.id t
            (existing_pending around user context reason now fresh_id is_integrity_error status b s)
    existing_pending-Told id ActionStatus.pending_approval b s is e same at own_b =
        existing_approval-Told id b s (approval_of s.working b) e same at own_b is refl
    existing_pending-Told id ActionStatus.draft_preview b s is e same at own_b = theirs s e
    existing_pending-Told id ActionStatus.approved_executing b s is e same at own_b = theirs s e
    existing_pending-Told id ActionStatus.completed b s is e same at own_b = theirs s e
    existing_pending-Told id ActionStatus.rejected b s is e same at own_b = theirs s e
    existing_pending-Told id ActionStatus.failed b s is e same at own_b = theirs s e
    existing_pending-Told id ActionStatus.cancelled b s is e same at own_b = theirs s e
    existing_pending-Told id ActionStatus.expired b s is e same at own_b = theirs s e

    after_conflict-Told :
        (id : Uuid) (existing : Option ActionRequest) (s : Session D)
        → owned_action s.working id user.id ≡ existing
        → s.saved ≡ around.meanwhile t
        → s.working ≡ s.saved
        → SubmitTold around id user.id t
            (after_conflict around user context reason now fresh_id is_integrity_error existing s)
    after_conflict-Told id none s h e same = theirs s e
    after_conflict-Told id (some b) s h e same =
        let (at, own_b) = owned_action_sound s.working id user.id h in
        existing_pending-Told id b.status b s refl e same
          (ap (λ (u : Tables D). u.actions id) (sym same) ∙ at) own_b

    pub submit_new-Told :
        (commits : List Bool)
        → a.status ≡ ActionStatus.draft_preview
        → SubmitTold around a.id user.id t (
            submit_new around user context reason now fresh_id is_integrity_error a
              (start t commits))
    unfolding submit_new submit_work commit rollback
    submit_new-Told [] draft =
        serialize-Told around user context now t a.id _ _ _ t (inl refl)
          (inr (submitted_tables, submits (submitted_tables-Submission draft), refl)) refl
          submitted-IsWaiting
    submit_new-Told (true ∷ rest) draft =
        serialize-Told around user context now t a.id _ _ _ t (inl refl)
          (inr (submitted_tables, submits (submitted_tables-Submission draft), refl)) refl
          submitted-IsWaiting
    submit_new-Told (false ∷ rest) draft =
        if-cases (SubmitTold around a.id user.id t) is_integrity_error _ _
          (λ conflict.
            after_conflict-Told a.id (owned_action (around.meanwhile t) a.id user.id) _ refl refl
              refl)
          (λ other. ((t, inl refl, inl refl), tt))
