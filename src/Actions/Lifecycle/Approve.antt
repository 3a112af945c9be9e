-- ===== src/Actions/Lifecycle/Approve.antt =====
-- `ApprovalLifecycleService.approve` and `_persist_escalation`
mod Escalate
unfoldable pub use Escalate.*
use queryops_ai.Prelude.{
  ℕ, String, Bool, true, false, not, ◌&&◌, ◌||◌, Option, none, some, List, [], ◌∷◌, ◌==◌, str_eq,
  any, select, length, if◌then◌else◌,
}
use queryops_ai.Prelude.Uuid.{Uuid, uuid_str}
use queryops_ai.Prelude.Int.{pos}
use queryops_ai.Prelude.Json
use queryops_ai.Prelude.Json.{Fields}
use queryops_ai.Auth.Permissions.{AppUser}
use queryops_ai.Auth.Context.{UserAccessContext}
use queryops_ai.Actions.Policy.{ActionPolicyDecision, ApprovalQuestion, evaluate_action_approval}
use queryops_ai.Actions.Rows.{
  ActionRequest, ApprovalRequest, ActionStatus, AuditLog, Notification, is_pending_approval,
  is_pending, status_value,
}
use queryops_ai.Actions.Audit.{build_action_audit_log}
use queryops_ai.Actions.Notifications.{
  approval_decision, or_empty, eligible_approvers, build_pending_approval_notifications,
}
use queryops_ai.Actions.Session.{
  Session, update_where, rollback, commit, save_action, save_approval, add_audits,
  add_notifications,
}
use queryops_ai.Actions.Lifecycle.Base.{
  Outcome, returned, raised, crashed, ServiceError, not_found, forbidden, already_processed,
  internal_error, ahead, dict_of, locked_pair, is_pending_expired, require_pending, commit_or_fail,
}
use queryops_ai.Actions.Lifecycle.Reject.{expire_and_raise}
use queryops_ai.Actions.Lifecycle.Handlers.{
  Revalidation, Handler, Engine, require_action_revalidation, is_stable_execution_set,
}
use queryops_ai.Actions.Lifecycle.Complete.{complete_success}
use queryops_ai.Actions.Lifecycle.Failure.{persist_execution_failure}

module _ {D : Type 0} (iso : ℕ → String) (engine : Engine D) (user : AppUser)
    (context : UserAccessContext) (reason : String) (now : ℕ) where
  abbrev pub completed_reply :
      ActionRequest → ApprovalRequest → Revalidation → List Uuid → Bool → ApproveReply
  completed_reply a p r executed self_approved = record {
    approval_id = uuid_str p.id;
    action_request_id = uuid_str a.id;
    status = status_value ActionStatus.completed;
    executed_records_count = length executed;
    skipped_records_count = a.skipped_count;
    self_approved = self_approved;
    override_used = r.requires_policy_override;
    completed_at = iso now;
  }

  -- The last `db.commit()`; its failure is one more exception of the execution.
  abbrev pub commit_success : ApproveReply → Session D → Attempt D
  commit_success reply s =
      let (s', done) = commit s in
      if done then settled (returned reply) s' else broke "execution_failed" s'

  abbrev pub claimed_action : ActionRequest → ActionRequest
  claimed_action a = record a { status = ActionStatus.approved_executing; approved_at = some now }

  -- What follows a successful execution: the completion and the commit.
  unfoldable pub after_execution :
      ActionRequest → ApprovalRequest → Revalidation → Bool → Session D → List Uuid × D → Attempt D
  after_execution a p r self_approved claimed (executed, domain) =
      let ran : Session D = record claimed {
        working = record claimed.working { domain = domain };
      } in
      or_broke (complete_success user reason now a p r executed self_approved ran)
        "execution_failed" ran
        (λ (a', done). commit_success (completed_reply a' p r executed self_approved) done)

  -- The claim of the action row, and the execution.
  unfoldable pub execute_claimed :
      Handler D
      → ActionRequest
      → ApprovalRequest
      → Revalidation
      → ActionPolicyDecision
      → Session D
      → Attempt D
  execute_claimed handler a p r decision s =
      let (actions, changed) =
        update_where s.working.actions a.id
          (λ (row : ActionRequest). is_pending_approval row.status && ahead row.expires_at now)
          claimed_action in
      let claimed : Session D = record s { working = record s.working { actions = actions } } in
      if not (changed == 1) || not (is_pending p.status)
      then settled (raised already_processed) (rollback claimed)
      else or_broke (handler.execute s.working.domain a user.id r now) "execution_failed" claimed
          (after_execution a p r decision.self_approved claimed)

  -- `current_decision`: the policy on what has been revalidated.
  abbrev pub current_question : ActionRequest → Revalidation → ApprovalQuestion
  current_question a r = record {
    requester_app_user_id = a.requested_by_app_user_id;
    scope_type = or_empty a.scope_type;
    scope_key = or_empty a.scope_key;
    record_count = pos (length r.executable_ids);
    crosses_scopes = r.crosses_scopes;
    requires_policy_override = r.requires_policy_override;
  }

  unfoldable pub decide :
      Handler D → ActionRequest → ApprovalRequest → Revalidation → Session D → Attempt D
  decide handler a p r s =
      let decision = evaluate_action_approval context (current_question a r) in
      if not decision.allowed
      then denied iso engine user context reason now a p r decision s
      else execute_claimed handler a p r decision s

  -- What the other transactions committed while the lock waited is there for everybody.
  abbrev pub with_domain : D → Session D → Session D
  with_domain d s = record s {
    saved = record s.saved { domain = d };
    working = record s.working { domain = d };
  }

  -- The `try` block: both revalidations around the locking of the dependencies.
  unfoldable pub attempt : ActionRequest → ApprovalRequest → Session D → Attempt D
  attempt a p s =
      if not (engine.validates a)
      then broke "validation_failed" s
      else or_broke (engine.registry a.action_type) "validation_failed" s (λ handler.
        or_broke
          (require_action_revalidation a.action_type
            (handler.revalidate s.working.domain a context now))
          "validation_failed" s
          (λ initial.
            or_broke (engine.lock s.working.domain initial) "validation_failed" s (λ domain.
              let locked = with_domain domain s in
              or_broke
                (require_action_revalidation a.action_type
                  (handler.revalidate domain a context now))
                "validation_failed" locked
                (λ r.
                  if not (is_stable_execution_set initial r)
                  then broke "validation_failed" locked
                  else decide handler a p r locked))))

  abbrev pub failed_reply : ActionRequest → ApprovalRequest → ApproveReply
  failed_reply a p = record {
    approval_id = uuid_str p.id;
    action_request_id = uuid_str a.id;
    status = status_value ActionStatus.failed;
    executed_records_count = 0;
    skipped_records_count = 0;
    self_approved = (approval_decision a context).self_approved;
    override_used = false;
    completed_at = iso now;
  }

  abbrev pub after_failure :
      ActionRequest → ApprovalRequest → Option Bool × Session D → Outcome ApproveReply × Session D
  after_failure a p (none, s) =
      (raised (internal_error "The action could not be completed safely."), rollback s)
  after_failure a p (some false, s) = (raised already_processed, s)
  after_failure a p (some true, s) = (returned (failed_reply a p), s)

  -- `db.rollback()` gives up the locks.
  abbrev pub released : Session D → Session D
  released s = record s { saved = engine.meanwhile s.saved; working = engine.meanwhile s.saved }

  -- The `except Exception` block.
  unfoldable pub recover :
      ActionRequest → ApprovalRequest → Attempt D → Outcome ApproveReply × Session D
  recover a p (settled outcome s) = (outcome, s)
  recover a p (broke category s) =
      after_failure a p (persist_execution_failure user reason now category a.id p.id (released s))

  abbrev pub approve_checked :
      ActionRequest
      → ApprovalRequest
      → Session D
      → Option ServiceError
      → Outcome ApproveReply × Session D
  approve_checked a p s (some e) = (raised e, s)
  approve_checked a p s none = recover a p (attempt a p s)

  unfoldable pub approve_pair :
      ActionRequest → ApprovalRequest → Session D → Outcome ApproveReply × Session D
  approve_pair a p s =
      if not (approval_decision a context).allowed
      then (raised not_found, s)
      else if is_pending_expired a p now
      then expire_and_raise user now a p s
      else approve_checked a p s (require_pending a p now)

  unfoldable pub approve : Uuid → Session D → Outcome ApproveReply × Session D
  approve approval_id s = elim (locked_pair s.working approval_id) [
    | none ↦ (raised not_found, s)
    | some (a, p) ↦ approve_pair a p s
  ]
