-- ===== src/Actions/Lifecycle/Refines/Expiry.antt =====
-- `_expire_one`
use queryops_ai.Prelude.{
  ℕ, Bool, true, false, ◌&&◌, List, [], ◌∷◌, ◌++◌, if◌then◌else◌, ◌≡◌, refl, inl, inr, arith,
  Bool-cases,
}
use queryops_ai.Auth.Permissions.{AppUser}
use queryops_ai.Actions.Rows.{ActionRequest, ApprovalRequest, Tables}
use queryops_ai.Actions.Session.{start, rollback, put}
use queryops_ai.Actions.Lifecycle.Base.{returned, passed, commit_or_fail}
use queryops_ai.Actions.Lifecycle.Expire.{
  expire_one, expired_action, expired_approval, expiry_audit,
}
use queryops_ai.Actions.Lifecycle.Refines.Locks.{commit_or_fail-Moves}
use queryops_ai.Actions.Lifecycle.Steps.{Verdict, IsPendingPair, Step, Moves, put-put}

module _ {D : Type 0} (actor : AppUser) (a : ActionRequest) (p : ApprovalRequest) (now : ℕ)
    (t : Tables D) where
  -- The tables after an expiry.
  abbrev pub expired_tables : Tables D
  expired_tables = record t {
    actions = put (put t.actions a.id (expired_action a)) a.id (expired_action a);
    approvals = put (put t.approvals p.id (expired_approval now p)) p.id (expired_approval now p);
    audits = t.audits ++ expiry_audit actor (expired_action a) (expired_approval now p) ∷ [];
  }

  module _ (before : IsPendingPair t a p) where
    pub expired_tables-Step : Step t expired_tables
    expired_tables-Step = record {
      verdict = Verdict.expire;
      a = a;
      a' = expired_action a;
      p = p;
      p' = expired_approval now p;
      before = before;
      same_action = refl;
      same_approval = refl;
      same_link = refl;
      action_status = refl;
      approval_status = refl;
      actions = λ j. put-put t.actions a.id (expired_action a) (expired_action a) j;
      approvals = λ j. put-put t.approvals p.id (expired_approval now p) (expired_approval now p) j;
      keys = refl;
      logs = expiry_audit actor (expired_action a) (expired_approval now p) ∷ [];
      audited = refl;
      audit_count = refl;
      domain = inr refl;
    }

    -- A pending pair is expired only if both of its rows are over time. A pending pair of which
    -- one row still has time is left as it is, and the caller is told that nothing was changed.
    pub expire_one_lem :
        (commits : List Bool)
        → expire_one actor a p now (start t commits) ≡ (
            if passed a.expires_at now && passed p.expires_at now
            then commit_or_fail "The expired approval could not be updated safely." true
                (record { saved = t; working = expired_tables; commits = commits })
            else (returned false, start t commits))
    unfolding expire_one rollback
    expire_one_lem commits = ground (
      arith, before.pair.found_action, before.pair.found_approval, before.pair.linked,
      before.action_pending, before.approval_pending,
    )

    -- An expiry refines the state machine, whether its commit succeeds or not.
    pub expire_one-Moves :
        (commits : List Bool) → Moves t (expire_one actor a p now (start t commits)).1
    expire_one-Moves commits =
        rw expire_one_lem (elim (Bool-cases (passed a.expires_at now && passed p.expires_at now)) [
          | inl over ↦
              rw over (commit_or_fail-Moves _ true t expired_tables commits expired_tables-Step)
          | inr ahead ↦ rw ahead (inl refl)
        ])
