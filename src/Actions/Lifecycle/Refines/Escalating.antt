-- ===== src/Actions/Lifecycle/Refines/Escalating.antt =====
-- The escalation of `approve`.
use queryops_ai.Prelude.{
  ℕ, String, Bool, true, false, ◌&&◌, some, List, [], ◌∷◌, str_eq, refl, inl, inr,
}
use queryops_ai.Prelude.Json.{Json, Fields}
use queryops_ai.Auth.Permissions.{AppUser}
use queryops_ai.Auth.Context.{UserAccessContext}
use queryops_ai.Actions.Policy.{ActionPolicyDecision}
use queryops_ai.Actions.Rows.{ActionRequest, ApprovalRequest, Tables}
use queryops_ai.Actions.Session.{start, rollback, commit}
use queryops_ai.Actions.Lifecycle.Base.{dict_of, commit_or_fail}
use queryops_ai.Actions.Lifecycle.Handlers.{Revalidation, Engine}
use queryops_ai.Actions.Lifecycle.Approve.{
  escalation_audit, escalated_policy, persist_escalation, after_escalation, denied,
}
use queryops_ai.Actions.Lifecycle.Steps.{Verdict, IsPendingPair, Step}
use queryops_ai.Actions.Lifecycle.Refines.Answers.{Keeps, or_broke-Keeps, Keeps-if}

module _ {D : Type 0} (iso : ℕ → String) (engine : Engine D) (user : AppUser)
    (context : UserAccessContext) (reason : String) (now : ℕ) (a : ActionRequest)
    (p : ApprovalRequest) (b : Tables D) (before : IsPendingPair b a p) (commits : List Bool) where
  after_escalation-Keeps :
      (message : String) (w : Tables D) (rest : List Bool)
      → Step b w
      → Keeps b (
          after_escalation iso engine user context reason now
            (commit_or_fail message tt (record { saved = b; working = w; commits = rest })))
  unfolding commit_or_fail commit rollback
  after_escalation-Keeps message w [] step = inr (w, step, refl)
  after_escalation-Keeps message w (true ∷ rest) step = inr (w, step, refl)
  after_escalation-Keeps message w (false ∷ rest) step = inl refl

  persist_escalation-Keeps :
      (r : Revalidation) (policy : Fields)
      → Keeps b (
          after_escalation iso engine user context reason now
            (persist_escalation iso engine user context reason now a p r policy (start b commits)))
  unfolding persist_escalation
  persist_escalation-Keeps r policy =
      let a' : ActionRequest = record a {
        policy_flags_json = Json.obj (escalated_policy r policy);
        requires_admin = true;
      } in
      let p' : ApprovalRequest = record p { required_approver_role = some "admin" } in
      after_escalation-Keeps _ _ commits (record {
        verdict = Verdict.escalate;
        a = a;
        a' = a';
        p = p;
        p' = p';
        before = before;
        same_action = refl;
        same_approval = refl;
        same_link = refl;
        action_status = before.action_pending;
        approval_status = before.approval_pending;
        actions = λ j. refl;
        approvals = λ j. refl;
        keys = refl;
        logs = escalation_audit user a' p' ∷ [];
        audited = refl;
        audit_count = refl;
        domain = inr refl;
      })

  pub denied-Keeps :
      (r : Revalidation) (decision : ActionPolicyDecision)
      → Keeps b (denied iso engine user context reason now a p r decision (start b commits))
  unfolding denied
  denied-Keeps r decision =
      Keeps-if b (r.requires_policy_override && str_eq decision.code "override_permission_required")
        _ _
        (λ e.
          or_broke-Keeps b (dict_of a.policy_flags_json) "validation_failed" (start b commits)
            (λ policy. after_escalation iso engine user context reason now (
              persist_escalation iso engine user context reason now a p r policy (start b commits)))
            refl (λ policy found. persist_escalation-Keeps r policy))
        (λ e. inl refl)
