-- ===== src/Actions/Lifecycle/Refines/Rejection.antt =====
-- `reject`
use queryops_ai.Prelude.{
  ℕ, String, Bool, true, false, not, ◌&&◌, ◌||◌, Option, none, some, List, [], ◌∷◌, ◌++◌,
  if◌then◌else◌, ◌≡◌, refl, inl, inr, arith, Bool-cases, Option-cases,
}
use queryops_ai.Prelude.Uuid.{Uuid, uuid_str}
use queryops_ai.Auth.Permissions.{AppUser}
use queryops_ai.Auth.Context.{UserAccessContext}
use queryops_ai.Actions.Rows.{ActionRequest, ApprovalRequest, ActionStatus, Tables, status_value}
use queryops_ai.Actions.Notifications.{approval_decision}
use queryops_ai.Actions.Session.{Session, start, rollback, put}
use queryops_ai.Actions.Lifecycle.Base.{
  Outcome, returned, raised, crashed, ServiceError, not_found, already_processed, passed,
  is_expired, require_pending, locked_pair, is_pending_expired, active_notifications,
  commit_or_fail,
}
use queryops_ai.Actions.Lifecycle.Expire.{expire_one}
use queryops_ai.Actions.Lifecycle.Reject.{
  RejectReply, rejected_action, rejected_approval, rejection_audit, rejection_notification,
  expire_and_raise, after_expiry, reject_pending, reject_checked, reject_pair, reject,
}
use queryops_ai.Actions.Lifecycle.Refines.Locks.{
  ahead-passed, commit_or_fail-Moves, locked_pair-IsPair, both_pending, require_pending-none,
  IsPendingPair-of_both_pending, require_pending-none,
}
use queryops_ai.Actions.Lifecycle.Refines.Expiry.{expired_tables, expire_one_lem, expire_one-Moves}
use queryops_ai.Actions.Lifecycle.Steps.{
  Verdict, IsKeyed, IsPair, IsPendingPair, Step, Moves, put-put, Moves-if,
}

module _ {D : Type 0} (user : AppUser) (now : ℕ) (iso : ℕ → String) (reason : String)
    (a : ActionRequest) (p : ApprovalRequest) (t : Tables D) where
  -- The tables after a rejection.
  abbrev pub rejected_tables : Tables D
  rejected_tables =
      let a' = rejected_action a in
      let p' = rejected_approval user reason now p in
      record t {
        actions = put (put t.actions a.id a') a.id a';
        approvals = put (put t.approvals p.id p') p.id p';
        audits = t.audits ++ rejection_audit user a' p' ∷ [];
        notifications =
            t.notifications
            ++ active_notifications t.users (rejection_notification user a' p' ∷ []);
      }

  abbrev pub reject_reply : RejectReply
  reject_reply = record {
    approval_id = uuid_str p.id;
    action_request_id = uuid_str a.id;
    status = status_value ActionStatus.rejected;
    decided_at = iso now;
  }

  module _ (before : IsPendingPair t a p) where
    rejected_tables-Step : Step t rejected_tables
    rejected_tables-Step =
        let a' = rejected_action a in
        let p' = rejected_approval user reason now p in
        record {
          verdict = Verdict.reject;
          a = a;
          a' = a';
          p = p;
          p' = p';
          before = before;
          same_action = refl;
          same_approval = refl;
          same_link = refl;
          action_status = refl;
          approval_status = refl;
          actions = λ j. put-put t.actions a.id a' a' j;
          approvals = λ j. put-put t.approvals p.id p' p' j;
          keys = refl;
          logs = rejection_audit user a' p' ∷ [];
          audited = refl;
          audit_count = refl;
          domain = inr refl;
        }

    reject_pending_lem :
        (commits : List Bool)
        → is_expired a p now ≡ false
        → reject_pending user now iso reason a p (start t commits)
          ≡ commit_or_fail "The approval decision could not be saved safely." reject_reply
              (record { saved = t; working = rejected_tables; commits = commits })
    unfolding reject_pending rollback is_expired
    reject_pending_lem commits h = ground (
      arith,
      before.pair.found_action,
      before.pair.found_approval,
      before.action_pending,
      before.approval_pending,
      ahead-passed a.expires_at now,
      ahead-passed p.expires_at now,
    )

  -- What the method does with a pair that it found, from its conditions alone.
  abbrev pub reject_outcome : UserAccessContext → List Bool → Outcome RejectReply × Session D
  reject_outcome context commits =
      if not (approval_decision a context).allowed
      then (raised not_found, start t commits)
      else if not (both_pending a p)
      then (raised already_processed, start t commits)
      else if passed a.expires_at now && passed p.expires_at now
      then after_expiry user now (
          commit_or_fail "The expired approval could not be updated safely." true
            (record { saved = t; working = expired_tables user a p now t; commits = commits }))
      else if passed a.expires_at now || passed p.expires_at now
      then (raised already_processed, start t commits)
      else commit_or_fail "The approval decision could not be saved safely." reject_reply
          (record { saved = t; working = rejected_tables; commits = commits })

  reject_pair_lem :
      (pair : IsPair t a p) (context : UserAccessContext) (commits : List Bool)
      → reject_pair user now iso reason context a p (start t commits)
        ≡ reject_outcome context commits
  unfolding reject_pair require_pending is_expired expire_and_raise
  reject_pair_lem pair context commits = elim (Bool-cases (both_pending a p)) [
    | inr decided ↦ ground arith
    | inl waiting ↦
        let before = IsPendingPair-of_both_pending pair waiting in
        ground
          (arith, expire_one_lem user a p now t before commits, reject_pending_lem before commits)
  ]

-- Raising after an expiry changes nothing more.
pub after_expiry-session :
    {D : Type 0} (A : Type 0) (user : AppUser) (now : ℕ) (r : Outcome Bool × Session D)
    → (after_expiry user now {A = A} r).1 ≡ r.1
after_expiry-session A user now (returned true, s) = refl
after_expiry-session A user now (returned false, s) = refl
after_expiry-session A user now (raised e, s) = refl
after_expiry-session A user now (crashed, s) = refl

-- The shared branch of an expiry refines the state machine.
pub expire_and_raise-Moves :
    {D : Type 0} (A : Type 0) (user : AppUser) (now : ℕ) (a : ActionRequest) (p : ApprovalRequest)
    (t : Tables D) (commits : List Bool)
    → IsPendingPair t a p
    → Moves t (expire_and_raise user now {A = A} a p (start t commits)).1
unfolding expire_and_raise
expire_and_raise-Moves A user now a p t commits before =
    rw (after_expiry-session A user now (expire_one user a p now (start t commits)))
      (expire_one-Moves user a p now t before commits)

module _ {D : Type 0} (user : AppUser) (now : ℕ) (iso : ℕ → String) (reason : String)
    (context : UserAccessContext) (t : Tables D) (keyed : IsKeyed t) (commits : List Bool) where
  -- `reject` on every branch, on tables with rows under their own keys. An unknown approval and
  -- one that the policy does not let the user decide are not found. A pair that has been decided,
  -- and a pending pair of which exactly one row is over time, is reported as processed; in all
  -- four cases nothing changes. A pending pair that is over time is expired and reported so, and
  -- any other pending pair is rejected; both hold if the commit succeeds, and else nothing
  -- changes.
  pub reject_lem :
      (id : Uuid)
      → reject user now iso reason context id (start t commits) ≡ (elim (locked_pair t id) [
        | none ↦ (raised not_found, start t commits)
        | some (a, p) ↦ reject_outcome user now iso reason a p t context commits
      ])
  unfolding reject locked_pair
  reject_lem id = elim (Option-cases (locked_pair t id)) [
    | inl absent ↦ rw absent
    | inr ((a, p), there) ↦ rw there (
        reject_pair_lem user now iso reason a p t (locked_pair-IsPair t keyed id there) context
          commits)
  ]

  reject_checked-Moves :
      (a : ActionRequest) (p : ApprovalRequest) (e : Option ServiceError)
      → (e ≡ none → Moves t (reject_pending user now iso reason a p (start t commits)).1)
      → Moves t (reject_checked user now iso reason a p (start t commits) e).1
  reject_checked-Moves a p none h = h refl
  reject_checked-Moves a p (some e) h = inl refl

  reject_pending-Moves :
      (a : ActionRequest) (p : ApprovalRequest)
      → IsPair t a p
      → require_pending a p now ≡ none
      → Moves t (reject_pending user now iso reason a p (start t commits)).1
  reject_pending-Moves a p pair passes =
      let (waiting, fresh) = require_pending-none a p now passes in
      let before = IsPendingPair-of_both_pending pair waiting in
      rw (reject_pending_lem user now iso reason a p t before commits fresh) (
        commit_or_fail-Moves _ _ t _ commits
          (rejected_tables-Step user now iso reason a p t before))

  reject_pair-Moves :
      (a : ActionRequest) (p : ApprovalRequest)
      → IsPair t a p
      → Moves t (reject_pair user now iso reason context a p (start t commits)).1
  unfolding reject_pair is_expired
  reject_pair-Moves a p pair =
      let on_time =
        reject_checked user now iso reason a p (start t commits) (require_pending a p now) in
      let over = expire_and_raise user now {A = RejectReply} a p (start t commits) in
      Moves-if (Outcome RejectReply) t (not (approval_decision a context).allowed)
        (raised not_found, start t commits) (if is_pending_expired a p now then over else on_time)
        (λ e. inl refl)
        (λ e.
          Moves-if (Outcome RejectReply) t (is_pending_expired a p now) over on_time
            (λ late.
              expire_and_raise-Moves RejectReply user now a p t commits
                (IsPendingPair-of_both_pending pair (ground arith)))
            (λ e'.
              reject_checked-Moves a p (require_pending a p now) (reject_pending-Moves a p pair)))

  -- `reject` refines the state machine: on tables with rows under their own keys, what others can
  -- see after it is what it found, or one decision further, for every user, request and outcome
  -- of its commits.
  pub reject-Moves :
      (id : Uuid) → Moves t (reject user now iso reason context id (start t commits)).1
  unfolding reject
  reject-Moves id = elim (Option-cases (locked_pair t id)) [
    | inl absent ↦ rw (absent, reject) (inl refl)
    | inr ((a, p), there) ↦
        rw (there, reject) (reject_pair-Moves a p (locked_pair-IsPair t keyed id there))
  ]
