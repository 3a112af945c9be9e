-- ===== src/Actions/Lifecycle/Refines/Closing.antt =====
-- What a reply of `approve` (action_engine/approval.py) means for the approval of the given id.
use queryops_ai.Prelude.{
  ℕ, String, Bool, true, false, not, ◌&&◌, Option, none, some, List, [], ◌∷◌, if◌then◌else◌, ◌≡◌,
  refl, sym, ap, subst, ◌∙◌, inl, inr, Option-cases, if-cases,
}
use queryops_ai.Prelude.Uuid.{Uuid}
use queryops_ai.Auth.Permissions.{AppUser}
use queryops_ai.Auth.Context.{UserAccessContext}
use queryops_ai.Actions.Rows.{ActionRequest, ApprovalRequest, Tables}
use queryops_ai.Actions.Notifications.{approval_decision}
use queryops_ai.Actions.Session.{Session, start, put, commit}
use queryops_ai.Actions.Lifecycle.Base.{
  Outcome, returned, raised, crashed, ServiceError, not_found, locked_pair, is_pending_expired,
  require_pending, links_to,
}
use queryops_ai.Actions.Lifecycle.Expire.{expire_one}
use queryops_ai.Actions.Lifecycle.Reject.{expire_and_raise, after_expiry}
use queryops_ai.Actions.Lifecycle.Handlers.{Engine}
use queryops_ai.Actions.Lifecycle.Complete.{approved_approval}
use queryops_ai.Actions.Lifecycle.Failure.{commit_or_raise, fail_pair, persist_execution_failure}
use queryops_ai.Actions.Lifecycle.Approve.{
  Attempt, settled, broke, attempt, after_failure, released, recover, approve_checked, approve_pair,
  approve,
}
use queryops_ai.Actions.Lifecycle.Steps.{IsKeyed}
use queryops_ai.Actions.Lifecycle.Refines.Locks.{both_pending, locked_pair-approval}
use queryops_ai.Actions.Lifecycle.Refines.Failing.{failed_tables, fail_pair_lem}
use queryops_ai.Actions.Lifecycle.Refines.Ending.{
  IsClosed, Closes, Ends, put-IsClosed, attempt-Ends,
}

abbrev Persisted : {D : Type 0} → Uuid → Option Bool × Session D → Type 0
Persisted j (some true, s) = IsClosed s.saved j
Persisted j (some false, s) = Unit
Persisted j (none, s) = Unit

after_expiry-Closes :
    {D : Type 0} (user : AppUser) (now : ℕ) (j : Uuid) (r : Outcome Bool × Session D)
    → Closes j (after_expiry user now r)
after_expiry-Closes user now j (returned true, s) = tt
after_expiry-Closes user now j (returned false, s) = tt
after_expiry-Closes user now j (raised e, s) = tt
after_expiry-Closes user now j (crashed, s) = tt

module _ {D : Type 0} (iso : ℕ → String) (engine : Engine D) (user : AppUser)
    (context : UserAccessContext) (reason : String) (now : ℕ)
    (others : (b : Tables D) → IsKeyed b → IsKeyed (engine.meanwhile b)) where
  commit_or_raise-Persisted :
      (category : String) (j : Uuid) (saved working : Tables D) (commits : List Bool)
      → IsClosed working j
      → Persisted j (
          commit_or_raise user reason now category
            (record { saved = saved; working = working; commits = commits }))
  unfolding commit
  commit_or_raise-Persisted category j v w [] closed = closed
  commit_or_raise-Persisted category j v w (true ∷ rest) closed = closed
  commit_or_raise-Persisted category j v w (false ∷ rest) closed = tt

  fail_pair-Persisted :
      (category : String) (b : Tables D) (a : ActionRequest) (p : ApprovalRequest)
      (commits : List Bool)
      → b.actions a.id ≡ some a
      → b.approvals p.id ≡ some p
      → Persisted p.id (fail_pair user reason now category a p (start b commits))
  fail_pair-Persisted category b a p commits found_a found_p =
      subst (Persisted p.id)
        (sym (fail_pair_lem user reason now category b a p commits found_a found_p))
        (if-cases (Persisted p.id) (both_pending a p && links_to p.action_request_id a.id)
          (commit_or_raise user reason now category (record {
            saved = b;
            working = failed_tables user reason now category b a p;
            commits = commits;
          }))
          (some false, start b commits)
          (λ waits.
            commit_or_raise-Persisted category p.id b (failed_tables user reason now category b a p)
              commits
              (put-IsClosed user reason now p (failed_tables user reason now category b a p)
                (put b.approvals p.id (approved_approval user reason now p)) refl))
          (λ _. tt))

  persist-Persisted :
      (category : String) (b : Tables D) (i j : Uuid) (commits : List Bool)
      → IsKeyed b
      → Persisted j (persist_execution_failure user reason now category i j (start b commits))
  unfolding persist_execution_failure
  persist-Persisted category b i j commits keyed = elim (Option-cases (b.actions i)) [
    | inl absent ↦ rw absent tt
    | inr (a, found_a) ↦ elim (Option-cases (b.approvals j)) [
      | inl absent ↦ rw (found_a, absent) tt
      | inr (p, found_p) ↦
          let is_j : p.id ≡ j = keyed.approvals j p found_p in
          rw (found_a, found_p)
            (subst (λ k. Persisted k (fail_pair user reason now category a p (start b commits)))
              is_j
              (fail_pair-Persisted category b a p commits
                (ap b.actions (keyed.actions i a found_a) ∙ found_a)
                (ap b.approvals is_j ∙ found_p)))
    ]
  ]

  after_failure-Closes :
      (j : Uuid) (a : ActionRequest) (p : ApprovalRequest) (r : Option Bool × Session D)
      → Persisted j r
      → Closes j (after_failure iso engine user context reason now a p r)
  after_failure-Closes j a p (none, s) h = tt
  after_failure-Closes j a p (some false, s) h = tt
  after_failure-Closes j a p (some true, s) h = h

  recover-Closes :
      (a : ActionRequest) (p : ApprovalRequest) (end : Attempt D)
      → Ends p.id end
      → Closes p.id (recover iso engine user context reason now a p end)
  unfolding recover
  recover-Closes a p (settled outcome s) h = h
  recover-Closes a p (broke category s) keyed =
      after_failure-Closes p.id a p
        (persist_execution_failure user reason now category a.id p.id
          (released iso engine user context reason now s))
        (persist-Persisted category (engine.meanwhile s.saved) a.id p.id s.commits
          (others s.saved keyed))

  approve_checked-Closes :
      (a : ActionRequest) (p : ApprovalRequest) (s : Session D) (error : Option ServiceError)
      → IsKeyed s.saved
      → Closes p.id (approve_checked iso engine user context reason now a p s error)
  approve_checked-Closes a p s (some e) keyed = tt
  approve_checked-Closes a p s none keyed =
      recover-Closes a p (attempt iso engine user context reason now a p s)
        (attempt-Ends iso engine user context reason now a p s keyed)

  approve_pair-Closes :
      (a : ActionRequest) (p : ApprovalRequest) (s : Session D)
      → IsKeyed s.saved
      → Closes p.id (approve_pair iso engine user context reason now a p s)
  unfolding approve_pair expire_and_raise
  approve_pair-Closes a p s keyed =
      if-cases (Closes p.id) (not (approval_decision a context).allowed) (raised not_found, s)
        (if is_pending_expired a p now
          then expire_and_raise user now a p s
          else approve_checked iso engine user context reason now a p s (require_pending a p now))
        (λ denies. tt)
        (λ allows.
          if-cases (Closes p.id) (is_pending_expired a p now) (expire_and_raise user now a p s)
            (approve_checked iso engine user context reason now a p s (require_pending a p now))
            (λ late. after_expiry-Closes user now p.id (expire_one user a p now s))
            (λ _. approve_checked-Closes a p s (require_pending a p now) keyed))

  -- If `approve` returns a reply, then the approval of the given id is there and no longer pending.
  pub approve-Closes :
      (t : Tables D) (commits : List Bool) (id : Uuid)
      → IsKeyed t
      → Closes id (approve iso engine user context reason now id (start t commits))
  unfolding approve
  approve-Closes t commits id keyed = elim (Option-cases (locked_pair t id)) [
    | inl absent ↦ rw (absent, approve) tt
    | inr ((a, p), locked) ↦
        let is_id : p.id ≡ id = keyed.approvals id p (locked_pair-approval t id locked) in
        rw (locked, approve)
          (subst
            (λ k. Closes k (approve_pair iso engine user context reason now a p (start t commits)))
            is_id (approve_pair-Closes a p (start t commits) keyed))
  ]
