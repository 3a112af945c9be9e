-- ===== src/Actions/Lifecycle/Refines/Executing.antt =====
-- What `approve` does once the policy allows: the claim, the execution, the completion.
use queryops_ai.Prelude.{
  ℕ, String, Bool, true, false, not, ◌&&◌, ◌||◌, Option, some, List, [], ◌∷◌, ◌++◌, ◌==◌, ◌≡◌, refl,
  inl, inr, ap, sym, subst, ◌∙◌, length, arith, Bool-cases, Option-cases,
}
use queryops_ai.Prelude.Uuid.{Uuid}
use queryops_ai.Auth.Permissions.{AppUser}
use queryops_ai.Auth.Context.{UserAccessContext}
use queryops_ai.Actions.Policy.{ActionPolicyDecision, evaluate_action_approval}
use queryops_ai.Actions.Rows.{
  ActionRequest, ApprovalRequest, ActionStatus, status_value, Tables, is_pending_approval,
  is_pending,
}
use queryops_ai.Actions.Session.{Session, start, rollback, commit, put, update_where}
use queryops_ai.Actions.Lifecycle.Base.{raised, already_processed, ahead}
use queryops_ai.Actions.Lifecycle.Handlers.{Revalidation, Handler, Engine}
use queryops_ai.Actions.Lifecycle.Complete.{
  completed_action, approved_approval, success_audits, success_notifications, complete_success,
}
use queryops_ai.Actions.Lifecycle.Approve.{
  settled, or_broke, denied, commit_success, ApproveReply, claimed_action, execute_claimed, decide,
  completed_reply, after_execution, current_question,
}
use queryops_ai.Actions.Lifecycle.Steps.{
  Decides, action_after, Verdict, IsPendingPair, Step, put-put,
}
use queryops_ai.Actions.Lifecycle.Refines.Escalating.{denied-Keeps}
use queryops_ai.Actions.Lifecycle.Refines.Answers.{Keeps, or_broke-Keeps, Keeps-if}

-- Writing a row after a conditional update of it is writing the row.
put-update_where :
    {A : Type 0} (rows : Uuid → Option A) (k : Uuid) (test : A → Bool) (change : A → A) (r : A)
    (j : Uuid)
    → put (update_where rows k test change).0 k r j ≡ put rows k r j
put-update_where rows k test change r j = elim (Option-cases (rows k)) [
  | inl absent ↦ rw (absent, update_where) refl
  | inr (row, there) ↦ elim (Bool-cases (test row)) [
    | inl passes ↦ rw (there, passes, update_where) (put-put rows k (change row) r j)
    | inr fails ↦ rw (there, fails, update_where) refl
  ]
]

-- A completed action is the same action, with its new status.
completed_action-same :
    (r : Revalidation) (now : ℕ) (a a' : ActionRequest)
    → completed_action r now a ≡ some a'
    → (a'.id ≡ a.id) × (a'.status ≡ ActionStatus.completed)
unfolding completed_action
completed_action-same r now a a' h = (ground arith, ground arith)

success_audits-length :
    (user : AppUser) (a : ActionRequest) (p : ApprovalRequest) (r : Revalidation)
    (executed : List Uuid) (self_approved : Bool)
    → length (success_audits user a p r executed self_approved) ≡ 2
unfolding success_audits
success_audits-length user a p r executed self_approved = refl

module _ {D : Type 0} (iso : ℕ → String) (engine : Engine D) (user : AppUser)
    (context : UserAccessContext) (reason : String) (now : ℕ) (a : ActionRequest)
    (p : ApprovalRequest) (b : Tables D) (before : IsPendingPair b a p) (commits : List Bool) where
  -- The work is a decision, and the reply tells its status.
  abbrev Earned : ApproveReply → Session D → Type 0
  Earned reply s =
      (step : Step b s.working) × (reply.status ≡ status_value (action_after step.verdict))

  commit_success-Keeps :
      (reply : ApproveReply) (saved working : Tables D) (rest : List Bool)
      → saved ≡ b
      → Earned reply (record { saved = saved; working = working; commits = rest })
      → Keeps b (
          commit_success iso engine user context reason now reply
            (record { saved = saved; working = working; commits = rest }))
  unfolding commit
  commit_success-Keeps reply v w [] same (step, told) = (w, step, refl, told)
  commit_success-Keeps reply v w (true ∷ rest) same (step, told) = (w, step, refl, told)
  commit_success-Keeps reply v w (false ∷ rest) same earned = same

  -- The tables after a completion, where the handler made the domain and the claim the rows.
  abbrev pub success_tables :
      ActionRequest → Revalidation → List Uuid → Bool → (Uuid → Option ActionRequest) → D → Tables D
  success_tables a' r executed self_approved rows domain =
      let p' = approved_approval user reason now p in
      record b {
        actions = put rows a'.id a';
        approvals = put b.approvals p'.id p';
        audits = b.audits ++ success_audits user a' p' r executed self_approved;
        notifications = b.notifications ++ success_notifications user a' p' r b.users;
        domain = domain;
      }

  success_tables-Step :
      (a' : ActionRequest) (r : Revalidation) (executed : List Uuid) (self_approved : Bool)
      (rows : Uuid → Option ActionRequest) (domain : D)
      → completed_action r now a ≡ some a'
      → ((row : ActionRequest) (j : Uuid) → put rows a.id row j ≡ put b.actions a.id row j)
      → Decides b (success_tables a' r executed self_approved rows domain) Verdict.complete
  success_tables-Step a' r executed self_approved rows domain there same =
      let (same_id, status) = completed_action-same r now a a' there in
      let p' = approved_approval user reason now p in
      (
        record {
          verdict = Verdict.complete;
          a = a;
          a' = a';
          p = p;
          p' = p';
          before = before;
          same_action = same_id;
          same_approval = refl;
          same_link = refl;
          action_status = status;
          approval_status = refl;
          actions = λ j. ap (λ i. put rows i a' j) same_id ∙ same a' j;
          approvals = λ j. refl;
          keys = refl;
          logs = success_audits user a' p' r executed self_approved;
          audited = refl;
          audit_count = success_audits-length user a' p' r executed self_approved;
          domain = inl refl;
        },
        refl,
      )

  complete_success_sound :
      (r : Revalidation) (executed : List Uuid) (self_approved : Bool)
      (rows : Uuid → Option ActionRequest) (domain : D) (a' : ActionRequest) (done : Session D)
      → complete_success user reason now a p r executed self_approved (record {
        saved = b;
        working = record b { actions = rows; domain = domain };
        commits = commits;
      })
        ≡ some (a', done)
      → (completed_action r now a ≡ some a')
        × (done ≡ record {
          saved = b;
          working = success_tables a' r executed self_approved rows domain;
          commits = commits;
        })
  unfolding complete_success
  complete_success_sound r executed self_approved rows domain a' done h =
      elim (Option-cases (completed_action r now a)) [
        | inl absent ↦ ground (arith, absent)
        | inr (a₁, there) ↦ (ground (arith, there), ground (arith, there))
      ]

  after_execution-Keeps :
      (r : Revalidation) (self_approved : Bool) (rows : Uuid → Option ActionRequest)
      → ((row : ActionRequest) (j : Uuid) → put rows a.id row j ≡ put b.actions a.id row j)
      → (result : List Uuid × D)
      → Keeps b (
          after_execution iso engine user context reason now a p r self_approved
            (record { saved = b; working = record b { actions = rows }; commits = commits })
            result)
  unfolding after_execution
  after_execution-Keeps r self_approved rows same (executed, domain) =
      let ran : Session D = record {
        saved = b;
        working = record b { actions = rows; domain = domain };
        commits = commits;
      } in
      or_broke-Keeps b (complete_success user reason now a p r executed self_approved ran)
        "execution_failed" ran
        (λ (a', done).
          commit_success iso engine user context reason now
            (completed_reply iso engine user context reason now a' p r executed self_approved) done)
        refl
        (λ (a', done) h.
          let (there, e) = complete_success_sound r executed self_approved rows domain a' done h in
          let reply =
            completed_reply iso engine user context reason now a' p r executed self_approved in
          let (step, completes) =
            success_tables-Step a' r executed self_approved rows domain there same in
          commit_success-Keeps reply done.saved done.working done.commits
            (ap (λ (s : Session D). s.saved) e)
            (subst (Earned reply) (sym e)
              (step, ap (λ v. status_value (action_after v)) (sym completes))))

  execute_claimed-Keeps :
      (handler : Handler D) (r : Revalidation) (decision : ActionPolicyDecision)
      → Keeps b (
          execute_claimed iso engine user context reason now handler a p r decision
            (start b commits))
  unfolding execute_claimed rollback
  execute_claimed-Keeps handler r decision =
      let test : ActionRequest → Bool =
        λ row. is_pending_approval row.status && ahead row.expires_at now in
      let change = claimed_action iso engine user context reason now in
      let up = update_where b.actions a.id test change in
      let claimed : Session D = record {
        saved = b;
        working = record b { actions = up.0 };
        commits = commits;
      } in
      let next =
        after_execution iso engine user context reason now a p r decision.self_approved claimed in
      Keeps-if b (not (up.1 == 1) || not (is_pending p.status))
        (settled (raised already_processed) (rollback claimed))
        (or_broke (handler.execute b.domain a user.id r now) "execution_failed" claimed next)
        (λ e. inl refl)
        (λ e.
          or_broke-Keeps b (handler.execute b.domain a user.id r now) "execution_failed" claimed
            next refl
            (λ result ran.
              after_execution-Keeps r decision.self_approved up.0
                (put-update_where b.actions a.id test change) result))

  pub decide-Keeps :
      (handler : Handler D) (r : Revalidation)
      → Keeps b (decide iso engine user context reason now handler a p r (start b commits))
  unfolding decide
  decide-Keeps handler r =
      let decision =
        evaluate_action_approval context
          (current_question iso engine user context reason now a r) in
      Keeps-if b (not decision.allowed)
        (denied iso engine user context reason now a p r decision (start b commits))
        (execute_claimed iso engine user context reason now handler a p r decision
          (start b commits))
        (λ e. denied-Keeps iso engine user context reason now a p b before commits r decision)
        (λ e. execute_claimed-Keeps handler r decision)
