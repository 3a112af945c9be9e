-- ===== src/Actions/Lifecycle/Steps.antt =====
-- The approval lifecycle as a state machine: what one decision may do to the tables. It says
-- nothing of how a method comes to its verdict.
use queryops_ai.Prelude.{
  ℕ, Bool, true, false, Option, some, List, ◌++◌, length, if◌then◌else◌, ◌≡◌, refl, ◌⊎◌, arith,
}
use queryops_ai.Prelude.Uuid.{Uuid}
use queryops_ai.Actions.Rows.{
  ActionRequest, ApprovalRequest, ActionStatus, ApprovalStatus, AuditLog, Tables,
}
use queryops_ai.Actions.Session.{Session, put}
use queryops_ai.Actions.Lifecycle.Base.{links_to}

pub data Verdict : Type 0 where
  expire reject complete fail escalate cancel : Verdict

abbrev pub action_after : Verdict → ActionStatus
action_after Verdict.expire = ActionStatus.expired
action_after Verdict.reject = ActionStatus.rejected
action_after Verdict.complete = ActionStatus.completed
action_after Verdict.fail = ActionStatus.failed
action_after Verdict.escalate = ActionStatus.pending_approval
action_after Verdict.cancel = ActionStatus.cancelled

abbrev pub approval_after : Verdict → ApprovalStatus
approval_after Verdict.expire = ApprovalStatus.expired
approval_after Verdict.reject = ApprovalStatus.rejected
approval_after Verdict.complete = ApprovalStatus.approved
approval_after Verdict.fail = ApprovalStatus.approved
approval_after Verdict.escalate = ApprovalStatus.pending
approval_after Verdict.cancel = ApprovalStatus.cancelled

abbrev pub audits_of : Verdict → ℕ
audits_of Verdict.complete = 2
audits_of _ = 1

-- The two rows stand in the tables and belong together.
pub record IsPair {D : Type 0} (t : Tables D) (a : ActionRequest) (p : ApprovalRequest)
    : Type 0 where
  pub found_action : t.actions a.id ≡ some a
  pub found_approval : t.approvals p.id ≡ some p
  pub linked : links_to p.action_request_id a.id ≡ true

pub record IsPendingPair {D : Type 0} (t : Tables D) (a : ActionRequest) (p : ApprovalRequest)
    : Type 0 where
  pub pair : IsPair t a p
  pub action_pending : a.status ≡ ActionStatus.pending_approval
  pub approval_pending : p.status ≡ ApprovalStatus.pending

-- One decision on one pending pair: both rows change together, to the statuses of the verdict, with
-- as many audit rows as the verdict takes. Every other row stays, and what the handlers work on
-- changes only where an action completes.
pub record Step {D : Type 0} (t t' : Tables D) : Type 0 where
  pub verdict : Verdict
  pub a : ActionRequest
  pub a' : ActionRequest
  pub p : ApprovalRequest
  pub p' : ApprovalRequest
  pub before : IsPendingPair t a p
  pub same_action : a'.id ≡ a.id
  pub same_approval : p'.id ≡ p.id
  pub same_link : p'.action_request_id ≡ p.action_request_id
  pub action_status : a'.status ≡ action_after verdict
  pub approval_status : p'.status ≡ approval_after verdict
  pub actions : (j : Uuid) → t'.actions j ≡ put t.actions a.id a' j
  pub approvals : (j : Uuid) → t'.approvals j ≡ put t.approvals p.id p' j
  pub keys : t'.approval_keys ≡ t.approval_keys
  pub logs : List AuditLog
  pub audited : t'.audits ≡ t.audits ++ logs
  pub audit_count : length logs ≡ audits_of verdict
  pub domain : (verdict ≡ Verdict.complete) ⊎ (t'.domain ≡ t.domain)

-- One decision, with this verdict.
abbrev pub Decides : {D : Type 0} → Tables D → Tables D → Verdict → Type 0
Decides t t' v = (step : Step t t') × (step.verdict ≡ v)

-- A method changed nothing that others can see, or made one decision.
abbrev pub Moves : {D : Type 0} → Tables D → Session D → Type 0
Moves {D} t s = (s.saved ≡ t) ⊎ ((after : Tables D) × Step t after × (s.saved ≡ after))

-- Rows stand under their own primary keys.
pub record IsKeyed {D : Type 0} (t : Tables D) : Type 0 where
  pub actions : (k : Uuid) (a : ActionRequest) → t.actions k ≡ some a → a.id ≡ k
  pub approvals : (k : Uuid) (p : ApprovalRequest) → t.approvals k ≡ some p → p.id ≡ k

-- Writing a row twice is writing it the second time.
pub put-put :
    {A : Type 0} (rows : Uuid → Option A) (k : Uuid) (r₁ r₂ : A) (j : Uuid)
    → put (put rows k r₁) k r₂ j ≡ put rows k r₂ j
put-put rows k r₁ r₂ j = ground arith

-- A method that branches makes a move if both of its branches do.
pub Moves-if :
    {D : Type 0} (A : Type 0) (t : Tables D) (b : Bool) (x y : A × Session D)
    → (b ≡ true → Moves t x.1)
    → (b ≡ false → Moves t y.1)
    → Moves t (if b then x else y).1
Moves-if A t true x y hx hy = hx refl
Moves-if A t false x y hx hy = hy refl
