-- ===== src/Actions/Lifecycle/Refines/Ending.antt =====
-- How the guarded part of `approve` (action_engine/approval.py) ends, and what a reply then means.
use queryops_ai.Prelude.{
  ℕ, String, Bool, true, false, not, ◌&&◌, ◌||◌, ◌==◌, Option, none, some, List, [], ◌∷◌,
  if◌then◌else◌, ◌≡◌, refl, sym, ap, subst, ◌∙◌, inl, inr, arith, str_eq, Bool-cases, Option-cases,
  if-cases, ==_refl,
}
use mathlib.Core.Option.{some-injective}
use queryops_ai.Prelude.Uuid.{Uuid}
use queryops_ai.Prelude.Json.{Fields}
use queryops_ai.Auth.Permissions.{AppUser}
use queryops_ai.Auth.Context.{UserAccessContext}
use queryops_ai.Actions.Policy.{ActionPolicyDecision, evaluate_action_approval}
use queryops_ai.Actions.Rows.{
  ActionRequest, ApprovalRequest, ApprovalStatus, Tables, is_pending_approval, is_pending,
}
use queryops_ai.Actions.Session.{Session, put, commit, rollback, update_where}
use queryops_ai.Actions.Lifecycle.Base.{
  Outcome, returned, raised, crashed, dict_of, forbidden, already_processed, commit_or_fail, ahead,
}
use queryops_ai.Actions.Lifecycle.Handlers.{
  Revalidation, Handler, Engine, require_action_revalidation, is_stable_execution_set,
}
use queryops_ai.Actions.Lifecycle.Complete.{approved_approval, complete_success, completed_action}
use queryops_ai.Actions.Lifecycle.Approve.{
  ApproveReply, Attempt, settled, broke, or_broke, after_escalation, persist_escalation,
  current_question, denied, commit_success, after_execution, execute_claimed, decide, attempt,
  claimed_action, completed_reply, with_domain,
}
use queryops_ai.Actions.Lifecycle.Steps.{IsKeyed}

-- The approval stands in the table and is not pending.
abbrev pub IsClosed : {D : Type 0} → Tables D → Uuid → Type 0
IsClosed t j =
    (q : ApprovalRequest) × (t.approvals j ≡ some q) × ¬ (q.status ≡ ApprovalStatus.pending)

abbrev pub Closes : {D : Type 0} → Uuid → Outcome ApproveReply × Session D → Type 0
Closes j (returned r, s) = IsClosed s.saved j
Closes j (raised e, s) = Unit
Closes j (crashed, s) = Unit

-- An attempt that settles with a reply, or breaks and leaves rows under their own keys.
abbrev pub Ends : {D : Type 0} → Uuid → Attempt D → Type 0
Ends j (settled outcome s) = Closes j (outcome, s)
Ends j (broke category s) = IsKeyed s.saved

or_broke-Ends :
    {D X : Type 0} (j : Uuid) (x : Option X) (category : String) (s : Session D)
    (next : X → Attempt D)
    → IsKeyed s.saved
    → ((v : X) → x ≡ some v → Ends j (next v))
    → Ends j (or_broke x category s next)
or_broke-Ends j none category s next keyed h = keyed
or_broke-Ends j (some v) category s next keyed h = h v refl

approved_closed : ¬ (ApprovalStatus.approved ≡ ApprovalStatus.pending)
approved_closed h = cc

-- The approval is written as approved.
pub put-IsClosed :
    {D : Type 0} (user : AppUser) (reason : String) (now : ℕ) (p : ApprovalRequest) (w : Tables D)
    (rows : Uuid → Option ApprovalRequest)
    → w.approvals ≡ put rows p.id (approved_approval user reason now p)
    → IsClosed w p.id
put-IsClosed user reason now p w rows e = (
  approved_approval user reason now p,
  ap (λ (f : Uuid → Option ApprovalRequest). f p.id) e ∙ rw (==_refl p.id) refl,
  approved_closed,
)

after_escalation-Ends :
    {D : Type 0} (iso : ℕ → String) (engine : Engine D) (user : AppUser)
    (context : UserAccessContext) (reason : String) (now : ℕ) (j : Uuid) (message : String)
    (saved working : Tables D) (commits : List Bool)
    → Ends j (
        after_escalation iso engine user context reason now (
          commit_or_fail message tt
            (record { saved = saved; working = working; commits = commits })))
unfolding commit_or_fail commit
after_escalation-Ends iso engine user context reason now j message v w [] = tt
after_escalation-Ends iso engine user context reason now j message v w (true ∷ rest) = tt
after_escalation-Ends iso engine user context reason now j message v w (false ∷ rest) = tt

module _ {D : Type 0} (iso : ℕ → String) (engine : Engine D) (user : AppUser)
    (context : UserAccessContext) (reason : String) (now : ℕ) where
  commit_success-Ends :
      (j : Uuid) (reply : ApproveReply) (saved working : Tables D) (commits : List Bool)
      → IsKeyed saved
      → IsClosed working j
      → Ends j (
          commit_success iso engine user context reason now reply
            (record { saved = saved; working = working; commits = commits }))
  unfolding commit
  commit_success-Ends j reply v w [] keyed closed = closed
  commit_success-Ends j reply v w (true ∷ rest) keyed closed = closed
  commit_success-Ends j reply v w (false ∷ rest) keyed closed = keyed

  complete_success-IsClosed :
      (a : ActionRequest) (p : ApprovalRequest) (r : Revalidation) (executed : List Uuid)
      (self_approved : Bool) (s : Session D) (a' : ActionRequest) (done : Session D)
      → complete_success user reason now a p r executed self_approved s ≡ some (a', done)
      → (done.saved ≡ s.saved)
        × (done.working.approvals
            ≡ put s.working.approvals p.id (approved_approval user reason now p))
  unfolding complete_success
  complete_success-IsClosed a p r executed self_approved s a' done h =
      elim (Option-cases (completed_action r now a)) [
        | inl absent ↦ ground (arith, absent)
        | inr (a₁, there) ↦
            let opened = some-injective _ _ (rw (there, complete_success) at h) in
            (
              ap (λ (x : ActionRequest × Session D). x.1.saved) (sym opened),
              ap (λ (x : ActionRequest × Session D). x.1.working.approvals) (sym opened),
            )
      ]

  after_execution-Ends :
      (a : ActionRequest) (p : ApprovalRequest) (r : Revalidation) (self_approved : Bool)
      (s : Session D) (result : List Uuid × D)
      → IsKeyed s.saved
      → Ends p.id (after_execution iso engine user context reason now a p r self_approved s result)
  unfolding after_execution
  after_execution-Ends a p r self_approved s (executed, domain) keyed =
      let ran : Session D = record s { working = record s.working { domain = domain } } in
      let reply = λ (a' : ActionRequest).
        completed_reply iso engine user context reason now a' p r executed self_approved in
      or_broke-Ends p.id (complete_success user reason now a p r executed self_approved ran)
        "execution_failed" ran
        (λ (a', done). commit_success iso engine user context reason now (reply a') done) keyed
        (λ (a', done) h.
          let (saved, e) = complete_success-IsClosed a p r executed self_approved ran a' done h in
          commit_success-Ends p.id (reply a') done.saved done.working done.commits
            (subst IsKeyed (sym saved) keyed)
            (put-IsClosed user reason now p done.working s.working.approvals e))

  execute_claimed-Ends :
      (handler : Handler D) (a : ActionRequest) (p : ApprovalRequest) (r : Revalidation)
      (decision : ActionPolicyDecision) (s : Session D)
      → IsKeyed s.saved
      → Ends p.id (execute_claimed iso engine user context reason now handler a p r decision s)
  unfolding execute_claimed
  execute_claimed-Ends handler a p r decision s keyed =
      let up =
        update_where s.working.actions a.id
          (λ (row : ActionRequest). is_pending_approval row.status && ahead row.expires_at now)
          (claimed_action iso engine user context reason now) in
      let claimed : Session D = record s { working = record s.working { actions = up.0 } } in
      let next =
        after_execution iso engine user context reason now a p r decision.self_approved claimed in
      if-cases (Ends p.id) (not (up.1 == 1) || not (is_pending p.status))
        (settled (raised already_processed) (rollback claimed))
        (or_broke (handler.execute s.working.domain a user.id r now) "execution_failed" claimed
          next)
        (λ taken. tt)
        (λ _.
          or_broke-Ends p.id (handler.execute s.working.domain a user.id r now) "execution_failed"
            claimed next keyed
            (λ result ran. after_execution-Ends a p r decision.self_approved claimed result keyed))

  denied-Ends :
      (a : ActionRequest) (p : ApprovalRequest) (r : Revalidation) (decision : ActionPolicyDecision)
      (s : Session D)
      → IsKeyed s.saved
      → Ends p.id (denied iso engine user context reason now a p r decision s)
  unfolding denied persist_escalation
  denied-Ends a p r decision s keyed =
      let escalate = λ (policy : Fields).
        after_escalation iso engine user context reason now
          (persist_escalation iso engine user context reason now a p r policy s) in
      if-cases (Ends p.id)
        (r.requires_policy_override && str_eq decision.code "override_permission_required")
        (or_broke (dict_of a.policy_flags_json) "validation_failed" s escalate)
        (settled (raised forbidden) s)
        (λ escalates.
          or_broke-Ends p.id (dict_of a.policy_flags_json) "validation_failed" s escalate keyed
            (λ policy h. after_escalation-Ends iso engine user context reason now p.id _ _ _ _))
        (λ refuses. tt)

  decide-Ends :
      (handler : Handler D) (a : ActionRequest) (p : ApprovalRequest) (r : Revalidation)
      (s : Session D)
      → IsKeyed s.saved
      → Ends p.id (decide iso engine user context reason now handler a p r s)
  unfolding decide
  decide-Ends handler a p r s keyed =
      let decision =
        evaluate_action_approval context
          (current_question iso engine user context reason now a r) in
      if-cases (Ends p.id) (not decision.allowed)
        (denied iso engine user context reason now a p r decision s)
        (execute_claimed iso engine user context reason now handler a p r decision s)
        (λ denies. denied-Ends a p r decision s keyed)
        (λ allows. execute_claimed-Ends handler a p r decision s keyed)

  -- From the second revalidation on.
  locked-Ends :
      (handler : Handler D) (initial : Revalidation) (a : ActionRequest) (p : ApprovalRequest)
      (s : Session D)
      → IsKeyed s.saved
      → (found : Option Revalidation)
      → Ends p.id (
          or_broke found "validation_failed" s (λ r.
            if not (is_stable_execution_set initial r)
            then broke "validation_failed" s
            else decide iso engine user context reason now handler a p r s))
  locked-Ends handler initial a p s keyed none = keyed
  locked-Ends handler initial a p s keyed (some r) =
      if-cases (Ends p.id) (not (is_stable_execution_set initial r)) (broke "validation_failed" s)
        (decide iso engine user context reason now handler a p r s) (λ _. keyed)
        (λ _. decide-Ends handler a p r s keyed)

  pub attempt-Ends :
      (a : ActionRequest) (p : ApprovalRequest) (s : Session D)
      → IsKeyed s.saved
      → Ends p.id (attempt iso engine user context reason now a p s)
  unfolding attempt
  attempt-Ends a p s keyed = elim (Bool-cases (engine.validates a)) [
    | inr invalid ↦ rw (invalid, attempt) keyed
    | inl valid ↦ elim (Option-cases (engine.registry a.action_type)) [
      | inl absent ↦ rw (valid, absent, attempt) keyed
      | inr (handler, there) ↦
          elim (Option-cases (
            require_action_revalidation a.action_type
              (handler.revalidate s.working.domain a context now))) [
                | inl absent ↦ rw (valid, there, absent, attempt) keyed
                | inr (initial, first) ↦
                    elim (Option-cases (engine.lock s.working.domain initial)) [
                      | inl absent ↦ rw (valid, there, first, absent, attempt) keyed
                      | inr (domain, locks) ↦
                          rw (valid, there, first, locks, attempt)
                            (locked-Ends handler initial a p
                              (with_domain iso engine user context reason now domain s)
                              (record { actions = keyed.actions; approvals = keyed.approvals })
                              (require_action_revalidation a.action_type
                                (handler.revalidate domain a context now)))
                    ]
              ]
    ]
  ]
