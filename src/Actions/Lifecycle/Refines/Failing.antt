-- ===== src/Actions/Lifecycle/Refines/Failing.antt =====
-- `_persist_execution_failure` and the `except Exception` block of `approve`.
use queryops_ai.Prelude.{
  Option, none, ℕ, String, Bool, true, false, ◌&&◌, some, List, [], ◌∷◌, ◌++◌, if◌then◌else◌, ◌≡◌,
  refl, inl, inr, ap, ◌∙◌, arith, Bool-cases, Option-cases,
}
use queryops_ai.Prelude.Uuid.{Uuid}
use queryops_ai.Auth.Permissions.{AppUser}
use queryops_ai.Actions.Rows.{ActionRequest, ApprovalRequest, Tables}
use queryops_ai.Actions.Session.{Session, start, rollback, commit, put}
use queryops_ai.Actions.Lifecycle.Base.{links_to, active_notifications}
use queryops_ai.Actions.Lifecycle.Complete.{approved_approval}
use queryops_ai.Actions.Lifecycle.Failure.{
  failed_action, failure_audit, failure_notifications, commit_or_raise, fail_pair,
  persist_execution_failure,
}
use queryops_ai.Actions.Lifecycle.Refines.Locks.{both_pending, IsPendingPair-of_both_pending}
use queryops_ai.Actions.Lifecycle.Steps.{
  Decides, Verdict, IsKeyed, IsPair, IsPendingPair, Step, Moves, put-put,
}

-- A failure that is reported as persisted is one decision, and any other end is at most one.
abbrev pub Persists : {D : Type 0} → Tables D → Option Bool × Session D → Type 0
Persists b (some true, s) =
    (after : Tables _) × (step : Step b after) × (s.saved ≡ after) × (step.verdict ≡ Verdict.fail)
Persists b (some false, s) = Moves b s
Persists b (none, s) = Moves b s

module _ {D : Type 0} (user : AppUser) (reason : String) (now : ℕ) (category : String)
    (b : Tables D) where
  module _ (a : ActionRequest) (p : ApprovalRequest) where
    -- The tables after a failure.
    abbrev pub failed_tables : Tables D
    failed_tables =
        let a' = failed_action category now a in
        let p' = approved_approval user reason now p in
        record b {
          actions = put (put b.actions a.id a') a.id a';
          approvals = put (put b.approvals p.id p') p.id p';
          audits = b.audits ++ failure_audit user category a' p' ∷ [];
          notifications =
              b.notifications ++ active_notifications b.users (failure_notifications user a' p');
        }

    failed_tables-Step : IsPendingPair b a p → Decides b failed_tables Verdict.fail
    failed_tables-Step before =
        let a' = failed_action category now a in
        let p' = approved_approval user reason now p in
        (
          record {
            verdict = Verdict.fail;
            a = a;
            a' = a';
            p = p;
            p' = p';
            before = before;
            same_action = refl;
            same_approval = refl;
            same_link = refl;
            action_status = refl;
            approval_status = refl;
            actions = λ j. put-put b.actions a.id a' a' j;
            approvals = λ j. put-put b.approvals p.id p' p' j;
            keys = refl;
            logs = failure_audit user category a' p' ∷ [];
            audited = refl;
            audit_count = refl;
            domain = inr refl;
          },
          refl,
        )

    -- For two rows that stand in the tables, a failure is written to both and committed if both
    -- are pending and belong together; otherwise nothing changes and the caller is told so.
    pub fail_pair_lem :
        (commits : List Bool)
        → b.actions a.id ≡ some a
        → b.approvals p.id ≡ some p
        → fail_pair user reason now category a p (start b commits) ≡ (
            if both_pending a p && links_to p.action_request_id a.id
            then commit_or_raise user reason now category
                (record { saved = b; working = failed_tables; commits = commits })
            else (some false, start b commits))
    unfolding fail_pair rollback
    fail_pair_lem commits found_a found_p = ground arith

  commit_or_raise-Persists :
      (w : Tables D) (commits : List Bool)
      → (step : Step b w) → step.verdict ≡ Verdict.fail
      → Persists b (
          commit_or_raise user reason now category
            (record { saved = b; working = w; commits = commits }))
  unfolding commit
  commit_or_raise-Persists w [] step e = (w, step, refl, e)
  commit_or_raise-Persists w (true ∷ rest) step e = (w, step, refl, e)
  commit_or_raise-Persists w (false ∷ rest) step e = inl refl

  fail_pair-Persists :
      (a : ActionRequest) (p : ApprovalRequest) (commits : List Bool)
      → b.actions a.id ≡ some a
      → b.approvals p.id ≡ some p
      → Persists b (fail_pair user reason now category a p (start b commits))
  fail_pair-Persists a p commits found_a found_p =
      rw (fail_pair_lem a p commits found_a found_p)
        (elim (Bool-cases (both_pending a p && links_to p.action_request_id a.id)) [
          | inr other ↦ rw other (inl refl)
          | inl waiting ↦
              let pair : IsPair b a p = record {
                found_action = found_a;
                found_approval = found_p;
                linked = ground arith;
              } in
              let before = IsPendingPair-of_both_pending pair (ground arith) in
              let (step, fails) = failed_tables-Step a p before in
              rw waiting (commit_or_raise-Persists (failed_tables a p) commits step fails)
        ])

  -- Persisting a failure refines the state machine.
  pub persist_execution_failure-Persists :
      IsKeyed b
      → (i j : Uuid) (commits : List Bool)
      → Persists b (persist_execution_failure user reason now category i j (start b commits))
  unfolding persist_execution_failure
  persist_execution_failure-Persists keyed i j commits = elim (Option-cases (b.actions i)) [
    | inl absent ↦ rw absent (inl refl)
    | inr (a, found_a) ↦ elim (Option-cases (b.approvals j)) [
      | inl absent ↦ rw (found_a, absent) (inl refl)
      | inr (p, found_p) ↦
          rw (found_a, found_p)
            (fail_pair-Persists a p commits (ap b.actions (keyed.actions i a found_a) ∙ found_a)
              (ap b.approvals (keyed.approvals j p found_p) ∙ found_p))
    ]
  ]
