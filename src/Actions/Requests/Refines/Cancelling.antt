-- ===== src/Actions/Requests/Refines/Cancelling.antt =====
-- `cancel_request`
use queryops_ai.Prelude.{
  ℕ, String, Bool, not, ◌&&◌, Option, none, some, List, [], ◌∷◌, ◌++◌, ◌==◌, ◌≡◌, refl, ap, ◌∙◌,
  ◌⊎◌, inl, inr, arith, Option-cases, Bool-cases, if-cases, ==_iff, &&-eq-true,
}
use queryops_ai.Prelude.Uuid.{Uuid}
use queryops_ai.Auth.Permissions.{AppUser}
use queryops_ai.Auth.Context.{UserAccessContext, has_permission}
use queryops_ai.Actions.Policy.{request_permission}
use queryops_ai.Actions.Rows.{
  ActionRequest, ApprovalRequest, ActionStatus, Tables, is_pending, is_pending_approval,
  status_value,
}
use queryops_ai.Actions.Session.{Session, start, put}
use queryops_ai.Actions.Lifecycle.Base.{Outcome, returned, raised, crashed, ServiceError, passed}
use queryops_ai.Actions.Lifecycle.Refines.Locks.{commit_or_fail_cases}
use queryops_ai.Actions.Lifecycle.Steps.{Verdict, IsPendingPair, Decides}
use queryops_ai.Actions.Lifecycle.Invariant.{IsCoherent}
use queryops_ai.Actions.Requests.{Surroundings, ActionReply, approval_of, owned_action, serialize}
use queryops_ai.Actions.Requests.Expire.{ExpirationKind}
use queryops_ai.Actions.Requests.Cancel.{
  cancelled_action, cancelled_approval, cancellation_audit, shown_after, cancel_pair, cancel_loaded,
  cancel_owned, cancel_request,
}
use queryops_ai.Actions.Requests.Changes.{decides}
use queryops_ai.Actions.Requests.Refines.Loading.{approval_of_sound}
use queryops_ai.Actions.Requests.Refines.Expiry.{
  coherent_pending, Told, is_pending_approval-eq, expire_action_request-Told,
}

-- A row that is found as the user's own stands under its key.
pub owned_action_sound :
    {D : Type 0} (t : Tables D) (id user_id : Uuid) {a : ActionRequest}
    → owned_action t id user_id ≡ some a
    → (t.actions id ≡ some a) × (a.requested_by_app_user_id ≡ user_id)
unfolding owned_action
owned_action_sound t id user_id h = elim (Option-cases (t.actions id)) [
  | inl e ↦ absurd (cc (rw e at h))
  | inr (b, e) ↦ elim (Bool-cases (b.requested_by_app_user_id == user_id)) [
    | inl mine ↦ ground (arith, e, mine, ==_iff b.requested_by_app_user_id user_id)
    | inr other ↦ ground (arith, e, other)
  ]
]

-- What a cancellation answers, and what it has done then.
abbrev pub Cancelled : {D : Type 0} → Tables D → ActionReply → Session D → Type 0
Cancelled {D} t r s =
    (after : Tables D) × Decides t after Verdict.cancel
    × (s.saved ≡ after)
    × (r.status ≡ status_value ActionStatus.cancelled)

module _ {D : Type 0} (around : Surroundings D) (user : AppUser) (context : UserAccessContext)
    (reason : String) (now : ℕ) (t : Tables D) (commits : List Bool) where
  module _ (a : ActionRequest) (p : ApprovalRequest) (before : IsPendingPair t a p) where
    abbrev cancelled_tables : Tables D
    cancelled_tables =
        let a' = cancelled_action a in
        let p' = cancelled_approval reason now p in
        record t {
          actions = put t.actions a.id a';
          approvals = put t.approvals p.id p';
          audits = t.audits ++ cancellation_audit user reason a' p' ∷ [];
        }

    cancelled_tables-Decides : Decides t cancelled_tables Verdict.cancel
    cancelled_tables-Decides = (
      record {
        verdict = Verdict.cancel;
        a = a;
        a' = cancelled_action a;
        p = p;
        p' = cancelled_approval reason now p;
        before = before;
        same_action = refl;
        same_approval = refl;
        same_link = refl;
        action_status = refl;
        approval_status = refl;
        actions = λ j. refl;
        approvals = λ j. refl;
        keys = refl;
        logs =
            cancellation_audit user reason (cancelled_action a) (cancelled_approval reason now p)
            ∷ [];
        audited = refl;
        audit_count = refl;
        domain = inr refl;
      },
      refl,
    )

    shown_after-Told :
        (r : Outcome (Unit {0}) × Session D)
        → ((r.0 ≡ returned tt) × (r.1.saved ≡ cancelled_tables))
          ⊎ ((e : ServiceError) × (r.0 ≡ raised e) × (r.1.saved ≡ t))
        → Told (Cancelled t) t (
            shown_after around user context reason now
              (cancelled_action a)
              (cancelled_approval reason now p)
              r)
    unfolding serialize
    shown_after-Told (returned u, s) (inl (_, e)) =
        if-cases (Told (Cancelled t) t) (around.validates (cancelled_action a)) (returned _, s)
          (crashed, s) (λ valid. (cancelled_tables, cancelled_tables-Decides, e, refl))
          (λ invalid. inr (cancelled_tables, decides cancelled_tables-Decides.0, e))
    shown_after-Told (returned u, s) (inr (_, h, e)) = absurd (cc h)
    shown_after-Told (raised x, s) (inl (h, e)) = absurd (cc h)
    shown_after-Told (raised x, s) (inr (_, _, e)) = inl e
    shown_after-Told (crashed, s) (inl (h, e)) = absurd (cc h)
    shown_after-Told (crashed, s) (inr (_, h, e)) = absurd (cc h)

    cancel_pair-Told :
        Told (Cancelled t) t (cancel_pair around user context reason now a p (start t commits))
    unfolding cancel_pair
    cancel_pair-Told =
        shown_after-Told _
          (elim (commit_or_fail_cases "The action request could not be cancelled safely." tt t
            cancelled_tables commits) [ inl (o, e) ↦ inl (o, e) | inr (o, e) ↦ inr (_, o, e) ])

  module _ (a : ActionRequest) (found : t.actions a.id ≡ some a) (c : IsCoherent t) where
    cancel_loaded-Told :
        a.status ≡ ActionStatus.pending_approval
        → (approval : Option ApprovalRequest) → approval_of t a ≡ approval
        → Told
            (Cancelled t)
            t
            (cancel_loaded around user context reason now a approval (start t commits))
    cancel_loaded-Told waiting none e = inl refl
    cancel_loaded-Told waiting (some p) e =
        let (found_p, linked) = approval_of_sound c a p e in
        let (_, pending) =
          coherent_pending a.status p.status (inr waiting)
            (c.together p.id a.id p a found_p found linked) in
        let before : IsPendingPair t a p = record {
          pair = record { found_action = found; found_approval = found_p; linked = linked };
          action_pending = waiting;
          approval_pending = pending;
        } in
        if-cases (Told (Cancelled t) t) (not (is_pending p.status)) _ _ (λ h. inl refl)
          (λ h. cancel_pair-Told a p before)

    cancel_owned-Told :
        Told (Cancelled t) t (cancel_owned around user context reason now a (start t commits))
    unfolding cancel_owned
    cancel_owned-Told =
        if-cases (Told (Cancelled t) t) (not (around.is_registered a.action_type)) _ _
          (λ h. inl refl)
          (λ _.
            if-cases (Told (Cancelled t) t)
              (is_pending_approval a.status && passed a.expires_at now) _ _
              (λ late.
                expire_action_request-Told user now ExpirationKind.pending_approval t c commits a
                  found
                  (inr (
                    is_pending_approval-eq a.status
                      ((&&-eq-true _ (passed a.expires_at now)).0 late).0))
                  (Cancelled t))
              (λ _.
                if-cases (Told (Cancelled t) t) (not (is_pending_approval a.status)) _ _
                  (λ h. inl refl)
                  (λ waiting.
                    if-cases (Told (Cancelled t) t) (not (around.validates a)) _ _ (λ h. inl refl)
                      (λ _.
                        cancel_loaded-Told (is_pending_approval-eq a.status (ground arith))
                          (approval_of t a) refl))))

-- `cancel_request` refines the changes that a requester may make, on coherent tables, for every user,
-- request and outcome of its commit. If it answers, then it has cancelled the pending pair, both rows
-- at once, and the status in the answer says so. Otherwise, what others can see is what it found, or
-- one change further.
pub cancel_request-Told :
    {D : Type 0} (around : Surroundings D) (user : AppUser) (context : UserAccessContext)
    (reason : String) (now : ℕ) (t : Tables D) (c : IsCoherent t) (commits : List Bool) (id : Uuid)
    → Told (Cancelled t) t (cancel_request around user context reason now id (start t commits))
unfolding cancel_request
cancel_request-Told around user context reason now t c commits id =
    if-cases (Told (Cancelled t) t) (not (has_permission context request_permission)) _ _
      (λ h. inl refl)
      (λ _. elim (Option-cases (owned_action t id user.id)) [
        | inl e ↦ rw e (inl refl)
        | inr (a, e) ↦
            let (found, _) = owned_action_sound t id user.id e in
            rw e (
              cancel_owned-Told around user context reason now t commits a
                (ap t.actions (c.keyed.actions id a found) ∙ found) c)
      ])
