-- ===== src/Actions/Lifecycle/Refines/Approval.antt =====
-- `approve`
use queryops_ai.Prelude.{
  ℕ, String, Bool, true, false, not, Option, none, some, List, if◌then◌else◌, ◌≡◌, refl, inl, inr,
  ap, sym, subst, arith, Option-cases,
}
use queryops_ai.Prelude.Uuid.{Uuid}
use queryops_ai.Auth.Permissions.{AppUser}
use queryops_ai.Auth.Context.{UserAccessContext}
use queryops_ai.Actions.Rows.{status_value, ActionRequest, ApprovalRequest, Tables}
use queryops_ai.Actions.Notifications.{approval_decision}
use queryops_ai.Actions.Session.{Session, start, rollback}
use queryops_ai.Actions.Lifecycle.Base.{
  Outcome, returned, raised, crashed, ServiceError, not_found, locked_pair, is_expired,
  is_pending_expired, require_pending,
}
use queryops_ai.Actions.Lifecycle.Reject.{after_expiry, expire_and_raise}
use queryops_ai.Actions.Lifecycle.Handlers.{Engine}
use queryops_ai.Actions.Lifecycle.Failure.{persist_execution_failure}
use queryops_ai.Actions.Lifecycle.Approve.{
  ApproveReply, Attempt, settled, broke, attempt, recover, released, after_failure, approve_checked,
  approve_pair, approve,
}
use queryops_ai.Actions.Lifecycle.Refines.Locks.{
  IsPendingPair-of_both_pending, locked_pair-IsPair, require_pending-none,
}
use queryops_ai.Actions.Lifecycle.Refines.Expiry.{expire_one-Moves}
use queryops_ai.Actions.Lifecycle.Refines.Answers.{Told}
use queryops_ai.Actions.Lifecycle.Expire.{expire_one}
use queryops_ai.Actions.Lifecycle.Refines.Failing.{Persists, persist_execution_failure-Persists}
use queryops_ai.Actions.Lifecycle.Steps.{action_after, IsKeyed, IsPair, IsPendingPair, Moves}
use queryops_ai.Actions.Lifecycle.Refines.Attempting.{stays, yields, Settles, Ends, attempt-Ends}

Settles-if :
    {D : Type 0} (engine : Engine D) (t : Tables D) (b : Bool)
    (x y : Outcome ApproveReply × Session D)
    → (b ≡ true → Settles engine t x)
    → (b ≡ false → Settles engine t y)
    → Settles engine t (if b then x else y)
Settles-if engine t true x y hx hy = hx refl
Settles-if engine t false x y hx hy = hy refl

-- An expiry ends in an error.
after_expiry-Told :
    {D : Type 0} (user : AppUser) (now : ℕ) (b : Tables D) (r : Outcome Bool × Session D)
    → Moves b r.1
    → let (outcome, s) = after_expiry user now {A = ApproveReply} r in Told b outcome s
after_expiry-Told user now b (returned true, s) moves = moves
after_expiry-Told user now b (returned false, s) moves = moves
after_expiry-Told user now b (raised e, s) moves = moves
after_expiry-Told user now b (crashed, s) moves = moves

expire_and_raise-Told :
    {D : Type 0} (user : AppUser) (now : ℕ) (a : ActionRequest) (p : ApprovalRequest) (t : Tables D)
    (commits : List Bool)
    → IsPendingPair t a p
    → let (outcome, s) = expire_and_raise user now {A = ApproveReply} a p (start t commits) in
      Told t outcome s
unfolding expire_and_raise
expire_and_raise-Told user now a p t commits before =
    after_expiry-Told user now t (expire_one user a p now (start t commits))
      (expire_one-Moves user a p now t before commits)

module _ {D : Type 0} (iso : ℕ → String) (engine : Engine D) (user : AppUser)
    (context : UserAccessContext) (reason : String) (now : ℕ) (t : Tables D) (keyed : IsKeyed t)
    (commits : List Bool) where
  -- Other transactions keep rows under their primary keys.
  module _ (keeps_keys : (b : Tables D) → IsKeyed b → IsKeyed (engine.meanwhile b)) where
    after_failure-Told :
        (b : Tables D) (a : ActionRequest) (p : ApprovalRequest) (r : Option Bool × Session D)
        → Persists b r
        → let (outcome, s) = after_failure iso engine user context reason now a p r in
          Told b outcome s
    unfolding rollback
    after_failure-Told b a p (none, s) moves = moves
    after_failure-Told b a p (some false, s) moves = moves
    after_failure-Told b a p (some true, s) (after, step, saved, fails) =
        (after, step, saved, ap (λ v. status_value (action_after v)) (sym fails))

    recover-Settles :
        (a : ActionRequest) (p : ApprovalRequest) (r : Attempt D)
        → Ends engine t r
        → Settles engine t (recover iso engine user context reason now a p r)
    unfolding recover
    recover-Settles a p (settled outcome s) (b, keyed', there, told) = (b, there, told)
    recover-Settles a p (broke category s) (b, keyed', there, here) =
        let b' = engine.meanwhile b in
        let failed : Option Bool × Session D =
          persist_execution_failure user reason now category a.id p.id
            (released iso engine user context reason now s) in
        (
          b',
          yields b there,
          after_failure-Told b' a p failed (
              subst
                (λ x. Persists b' (
                  persist_execution_failure user reason now category a.id p.id
                    (start (engine.meanwhile x) s.commits)))
                (sym here)
                (persist_execution_failure-Persists user reason now category b'
                  (keeps_keys b keyed') a.id p.id s.commits)),
        )

    approve_checked-Settles :
        (a : ActionRequest) (p : ApprovalRequest) (e : Option ServiceError)
        → (e ≡ none → IsPendingPair t a p)
        → Settles engine t
            (approve_checked iso engine user context reason now a p (start t commits) e)
    approve_checked-Settles a p (some e) h = (t, stays, inl refl)
    approve_checked-Settles a p none h =
        recover-Settles a p (attempt iso engine user context reason now a p (start t commits))
          (attempt-Ends iso engine user context reason now t keyed commits a p (h refl))

    approve_pair-Settles :
        (a : ActionRequest) (p : ApprovalRequest)
        → IsPair t a p
        → Settles engine t (approve_pair iso engine user context reason now a p (start t commits))
    unfolding approve_pair is_expired
    approve_pair-Settles a p pair =
        let on_time =
          approve_checked iso engine user context reason now a p (start t commits)
            (require_pending a p now) in
        let over = expire_and_raise user now {A = ApproveReply} a p (start t commits) in
        Settles-if engine t (not (approval_decision a context).allowed)
          (raised not_found, start t commits) (if is_pending_expired a p now then over else on_time)
          (λ e. (t, stays, inl refl))
          (λ e.
            Settles-if engine t (is_pending_expired a p now) over on_time
              (λ late. (
                t,
                stays,
                expire_and_raise-Told user now a p t commits
                    (IsPendingPair-of_both_pending pair (ground arith)),
              ))
              (λ e'. approve_checked-Settles a p (require_pending a p now) (λ passes.
                IsPendingPair-of_both_pending pair (require_pending-none a p now passes).0)))

    -- `approve` refines the state machine, for every user, request, handler and outcome of its
    -- commits, on tables with rows under their own keys, which other transactions keep so: after
    -- it, what others can see is what they have made of it themselves, or one decision further.
    -- If it returns a reply, there is such a decision, and the status in the reply is the one
    -- that the decision gave the action.
    pub approve-Settles :
        (id : Uuid)
        → Settles engine t (approve iso engine user context reason now id (start t commits))
    unfolding approve
    approve-Settles id = elim (Option-cases (locked_pair t id)) [
      | inl absent ↦ rw (absent, approve) (t, stays, inl refl)
      | inr ((a, p), there) ↦
          rw (there, approve) (approve_pair-Settles a p (locked_pair-IsPair t keyed id there))
    ]
