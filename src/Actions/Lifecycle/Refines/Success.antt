-- ===== src/Actions/Lifecycle/Refines/Success.antt =====
-- The way of `approve` to a completed action.
use queryops_ai.Prelude.{
  ℕ, String, Bool, true, false, not, Option, none, some, List, [], if◌then◌else◌, ◌≡◌, refl, ap,
  ◌∙◌, arith,
}
use queryops_ai.Prelude.Uuid.{Uuid}
use queryops_ai.Auth.Permissions.{AppUser}
use queryops_ai.Auth.Context.{UserAccessContext}
use queryops_ai.Actions.Policy.{evaluate_action_approval}
use queryops_ai.Actions.Rows.{
  ActionRequest, ApprovalRequest, Tables, is_pending_approval, is_pending,
}
use queryops_ai.Actions.Notifications.{approval_decision}
use queryops_ai.Actions.Session.{Session, start, put, commit}
use queryops_ai.Actions.Lifecycle.Base.{returned, ahead, locked_pair, is_expired, require_pending}
use queryops_ai.Actions.Lifecycle.Handlers.{
  Revalidation, Handler, Engine, require_action_revalidation, is_stable_execution_set,
}
use queryops_ai.Actions.Lifecycle.Complete.{completed_action, complete_success}
use queryops_ai.Actions.Lifecycle.Approve.{
  ApproveReply, settled, completed_reply, claimed_action, after_execution, execute_claimed,
  current_question, decide, denied, attempt, recover, approve_checked, approve_pair, approve,
}
use queryops_ai.Actions.Lifecycle.Refines.Locks.{ahead-passed}
use queryops_ai.Actions.Lifecycle.Refines.Executing.{success_tables}
use queryops_ai.Actions.Lifecycle.Refines.Attempting.{IsPendingPair-domain}
use queryops_ai.Actions.Lifecycle.Steps.{IsPendingPair}

module _ {D : Type 0} (iso : ℕ → String) (engine : Engine D) (user : AppUser)
    (context : UserAccessContext) (reason : String) (now : ℕ) (a : ActionRequest)
    (p : ApprovalRequest) where
  -- The tables after a success on the tables `b`.
  abbrev pub completed_tables :
      (b : Tables D) → IsPendingPair b a p → ActionRequest → Revalidation → List Uuid → D → Tables D
  completed_tables b before a' r executed domain =
      let decision =
        evaluate_action_approval context
          (current_question iso engine user context reason now a r) in
      success_tables iso engine user context reason now a p b before [] a' r executed
        decision.self_approved
        (put b.actions a.id (claimed_action iso engine user context reason now a)) domain

  abbrev pub success_reply : ActionRequest → Revalidation → List Uuid → ApproveReply
  success_reply a' r executed =
      let decision =
        evaluate_action_approval context
          (current_question iso engine user context reason now a r) in
      completed_reply iso engine user context reason now a' p r executed decision.self_approved

  abbrev pub at_rest : Tables D → Session D
  at_rest w = record { saved = w; working = w; commits = [] }

  module _ (b : Tables D) (before : IsPendingPair b a p) (handler : Handler D) (r : Revalidation)
      (executed : List Uuid) (domain : D) (a' : ActionRequest)
      (on_time : ahead a.expires_at now ≡ true)
      (ran : handler.execute b.domain a user.id r now ≡ some (executed, domain))
      (completes : completed_action r now a ≡ some a') where
    complete_success-success :
        (self_approved : Bool) (rows : Uuid → Option ActionRequest)
        → complete_success user reason now a p r executed self_approved (record {
          saved = b;
          working = record b { actions = rows; domain = domain };
          commits = [];
        })
          ≡ some (
            a',
            record {
              saved = b;
              working =
                  success_tables iso engine user context reason now a p b before [] a' r executed
                    self_approved rows domain;
              commits = [];
            },
          )
    unfolding complete_success
    complete_success-success self_approved rows = rw (completes, complete_success) refl

    after_execution-success :
        (self_approved : Bool) (rows : Uuid → Option ActionRequest)
        → after_execution iso engine user context reason now a p r self_approved
            (record { saved = b; working = record b { actions = rows }; commits = [] })
            (executed, domain)
          ≡ settled
              (returned
                (completed_reply iso engine user context reason now a' p r executed self_approved))
              (at_rest (
                success_tables iso engine user context reason now a p b before [] a' r executed
                  self_approved rows domain))
    unfolding after_execution commit
    after_execution-success self_approved rows =
        rw (complete_success-success self_approved rows, after_execution) refl

    execute_claimed-success :
        let decision =
          evaluate_action_approval context
            (current_question iso engine user context reason now a r) in
        execute_claimed iso engine user context reason now handler a p r decision (start b [])
        ≡ settled
            (returned (success_reply a' r executed))
            (at_rest (completed_tables b before a' r executed domain))
    unfolding execute_claimed
    execute_claimed-success =
        let decision =
          evaluate_action_approval context
            (current_question iso engine user context reason now a r) in
        let waits : is_pending_approval a.status ≡ true =
          ap is_pending_approval before.action_pending in
        let open_to : is_pending p.status ≡ true = ap is_pending before.approval_pending in
        rw (before.pair.found_action, waits, on_time, open_to, ran)
          (after_execution-success decision.self_approved
            (put b.actions a.id (claimed_action iso engine user context reason now a)))

  module _ (t : Tables D) (before : IsPendingPair t a p) (handler : Handler D)
      (initial r : Revalidation) (d : D) (executed : List Uuid) (domain : D) (a' : ActionRequest)
      (on_time : ahead a.expires_at now ≡ true) (valid : engine.validates a ≡ true)
      (registered : engine.registry a.action_type ≡ some handler)
      (first : require_action_revalidation a.action_type (handler.revalidate t.domain a context now)
        ≡ some initial)
      (waited : engine.lock t.domain initial ≡ some d)
      (second : require_action_revalidation a.action_type (handler.revalidate d a context now)
        ≡ some r)
      (stable : is_stable_execution_set initial r ≡ true)
      (allowed : (evaluate_action_approval context
          (current_question iso engine user context reason now a r)).allowed
        ≡ true)
      (ran : handler.execute d a user.id r now ≡ some (executed, domain))
      (completes : completed_action r now a ≡ some a') where
    abbrev final_tables : Tables D
    final_tables =
        completed_tables (record t { domain = d }) (IsPendingPair-domain t d a p before) a' r
          executed domain

    decide-success :
        decide iso engine user context reason now handler a p r (start (record t { domain = d }) [])
        ≡ settled (returned (success_reply a' r executed)) (at_rest final_tables)
    unfolding decide
    decide-success =
        let s : Session D = start (record t { domain = d }) [] in
        let decision =
          evaluate_action_approval context
            (current_question iso engine user context reason now a r) in
        ap
          (λ x.
            if not x
            then denied iso engine user context reason now a p r decision s
            else execute_claimed iso engine user context reason now handler a p r decision s)
          allowed
        ∙ execute_claimed-success (record t { domain = d }) (IsPendingPair-domain t d a p before)
            handler r executed domain a' on_time ran completes

    attempt-success :
        attempt iso engine user context reason now a p (start t [])
        ≡ settled (returned (success_reply a' r executed)) (at_rest final_tables)
    unfolding attempt
    attempt-success = rw (valid, registered, first, waited, second, stable) decide-success

    is_expired-fresh : ahead p.expires_at now ≡ true → is_expired a p now ≡ false
    unfolding is_expired
    is_expired-fresh fresh =
        ground (arith, ahead-passed a.expires_at now, ahead-passed p.expires_at now, on_time)

    require_pending-fresh : ahead p.expires_at now ≡ true → require_pending a p now ≡ none
    unfolding require_pending
    require_pending-fresh fresh =
        ground (arith, before.action_pending, before.approval_pending, is_expired-fresh fresh)

    approve_pair-checked :
        (approval_decision a context).allowed ≡ true
        → ahead p.expires_at now ≡ true
        → approve_pair iso engine user context reason now a p (start t [])
          ≡ approve_checked iso engine user context reason now a p
              (start t [])
              (require_pending a p now)
    unfolding approve_pair
    approve_pair-checked may fresh = ground (arith, may, is_expired-fresh fresh)

    -- An approval goes through: where the pair of the id is pending and both rows have time left, the
    -- policy allows the user on the stored request and on what is revalidated, the snapshot is valid,
    -- the type has a handler, both revalidations and the locking succeed with a stable set, the
    -- handler executes, the columns of the action can be completed and the commit succeeds, `approve` commits the
    -- completion on what the handler made of the domain and returns the completed reply.
    pub approve-success :
        (id : Uuid)
        → locked_pair t id ≡ some (a, p)
        → ahead p.expires_at now ≡ true
        → (approval_decision a context).allowed ≡ true
        → approve iso engine user context reason now id (start t [])
          ≡ (returned (success_reply a' r executed), at_rest final_tables)
    unfolding approve recover
    approve-success id there fresh may =
        let s : Session D = start t [] in
        let go = approve_checked iso engine user context reason now a p s in
        rw (there, approve) (approve_pair-checked may fresh)
        ∙ ap go (require_pending-fresh fresh)
        ∙ ap (recover iso engine user context reason now a p) attempt-success
