-- ===== src/Actions/Lifecycle/Service.antt =====
-- `ApprovalLifecycleService` and `ActionLifecycleService` as their users see them: whole requests, one
-- after another.
use queryops_ai.Prelude.{ℕ, String, Bool, none, some, List, ◌≡◌, ◌⊎◌, sym, subst, inl, inr}
use queryops_ai.Prelude.Uuid.{Uuid}
use queryops_ai.Auth.Permissions.{AppUser}
use queryops_ai.Auth.Context.{UserAccessContext}
use queryops_ai.Actions.Rows.{ApprovalRequest, ApprovalStatus, Tables}
use queryops_ai.Actions.Session.{Session, start}
use queryops_ai.Actions.Lifecycle.Base.{Outcome, returned, raised, crashed}
use queryops_ai.Actions.Lifecycle.Reject.{reject}
use queryops_ai.Actions.Lifecycle.Handlers.{Engine}
use queryops_ai.Actions.Lifecycle.Approve.{ApproveReply, approve}
use queryops_ai.Actions.Lifecycle.Refines.Answers.{Told}
use queryops_ai.Actions.Lifecycle.Refines.Rejection.{reject-Moves}
use queryops_ai.Actions.Lifecycle.Refines.Attempting.{Shifts, stays, waits, yields}
use queryops_ai.Actions.Lifecycle.Refines.Approval.{approve-Settles}
use queryops_ai.Actions.Lifecycle.Steps.{IsKeyed, Moves}
use queryops_ai.Actions.Lifecycle.Invariant.{IsCoherent, Step-IsCoherent, Step-decided}
use queryops_ai.Actions.Requests.{Surroundings, ActionReply}
use queryops_ai.Actions.Requests.Submit.{submit_request}
use queryops_ai.Actions.Requests.Cancel.{cancel_request}
use queryops_ai.Actions.Requests.Changes.{decides, Acts, Change-IsCoherent, Change-decided}
use queryops_ai.Actions.Requests.Refines.Expiry
use queryops_ai.Actions.Requests.Refines.Cancelling.{Cancelled, cancel_request-Told}
use queryops_ai.Actions.Requests.Refines.Submitting.{submit_request-Told}

-- The row is decided: it stands in the table and is not pending.
abbrev pub IsDecided : {D : Type 0} → Tables D → Uuid → ApprovalRequest → Type 0
IsDecided t j p = (t.approvals j ≡ some p) × (¬ (p.status ≡ ApprovalStatus.pending))

-- What the other transactions of the application do to the two tables: they keep them coherent, and
-- they do not write a decided approval.
pub record IsFair {D : Type 0} (meanwhile : Tables D → Tables D) : Type 0 where
  pub coherent : (b : Tables D) → IsCoherent b → IsCoherent (meanwhile b)
  pub keyed : (b : Tables D) → IsKeyed b → IsKeyed (meanwhile b)
  pub decided :
      (b : Tables D) (j : Uuid) (p : ApprovalRequest)
      → IsDecided b j p
      → IsDecided (meanwhile b) j p

Told-Moves :
    {D : Type 0} (b : Tables D) (outcome : Outcome ApproveReply) (s : Session D)
    → Told b outcome s
    → Moves b s
Told-Moves b (returned r) s (after, step, saved, told) = inr (after, step, saved)
Told-Moves b (raised e) s moves = moves
Told-Moves b crashed s moves = moves

module _ {D : Type 0} {t : Tables D} where
  Moves-IsCoherent : (s : Session D) → IsCoherent t → Moves t s → IsCoherent s.saved
  Moves-IsCoherent s c (inl e) = subst IsCoherent (sym e) c
  Moves-IsCoherent s c (inr (after, step, e)) = subst IsCoherent (sym e) (Step-IsCoherent step c)

  Moves-IsDecided :
      (s : Session D) (j : Uuid) (p : ApprovalRequest)
      → IsDecided t j p
      → Moves t s
      → IsDecided s.saved j p
  Moves-IsDecided s j p d (inl e) = subst (λ u. IsDecided u j p) (sym e) d
  Moves-IsDecided s j p (found, decided) (inr (after, step, e)) =
      subst (λ u. IsDecided u j p) (sym e) (Step-decided step j p found decided, decided)

  Acts-IsCoherent : (s : Session D) → IsCoherent t → Acts t s → IsCoherent s.saved
  Acts-IsCoherent s c (inl e) = subst IsCoherent (sym e) c
  Acts-IsCoherent s c (inr (after, change, e)) =
      subst IsCoherent (sym e) (Change-IsCoherent change c)

  Acts-IsDecided :
      (s : Session D) (j : Uuid) (p : ApprovalRequest)
      → IsDecided t j p
      → Acts t s
      → IsDecided s.saved j p
  Acts-IsDecided s j p d (inl e) = subst (λ u. IsDecided u j p) (sym e) d
  Acts-IsDecided s j p (found, decided) (inr (after, change, e)) =
      subst (λ u. IsDecided u j p) (sym e) (Change-decided change j p found decided, decided)

  -- What a cancellation tells, as a change.
  Told-Acts : (r : Outcome ActionReply × Session D) → Expiry.Told (Cancelled t) t r → Acts t r.1
  Told-Acts (returned r, s) (after, (step, _), e, _) = inr (after, decides step, e)
  Told-Acts (raised e, s) acts = acts
  Told-Acts (crashed, s) acts = acts

  module _ (engine : Engine D) (fair : IsFair engine.meanwhile) where
    Shifts-IsCoherent : (b : Tables D) → IsCoherent t → Shifts engine t b → IsCoherent b
    Shifts-IsCoherent _ c stays = c
    Shifts-IsCoherent _ c (waits r d e) = record {
      keyed = record { actions = c.keyed.actions; approvals = c.keyed.approvals };
      listed = c.listed;
      one_each = c.one_each;
      together = c.together;
    }
    Shifts-IsCoherent _ c (yields b shifts) = fair.coherent b (Shifts-IsCoherent b c shifts)

    Shifts-IsDecided :
        (b : Tables D) (j : Uuid) (p : ApprovalRequest)
        → IsDecided t j p
        → Shifts engine t b
        → IsDecided b j p
    Shifts-IsDecided _ j p d stays = d
    Shifts-IsDecided _ j p d (waits r domain e) = d
    Shifts-IsDecided _ j p d (yields b shifts) =
        fair.decided b j p (Shifts-IsDecided b j p d shifts)

-- Any sequence of requests to the services, by any users, at any times, with any outcomes of their
-- commits. A submission brings a fresh id for its approval.
pub data Serves {D : Type 0} (engine : Engine D) (around : Surroundings D) (iso : ℕ → String)
    (t : Tables D) : Tables D → Type 0 where
  idle : Serves engine around iso t t
  rejecting :
      (u : Tables D) (user : AppUser) (context : UserAccessContext) (now : ℕ) (reason : String)
      (id : Uuid) (commits : List Bool)
      → Serves engine around iso t u
      → Serves engine around iso t (reject user now iso reason context id (start u commits)).1.saved
  approving :
      (u : Tables D) (user : AppUser) (context : UserAccessContext) (now : ℕ) (reason : String)
      (id : Uuid) (commits : List Bool)
      → Serves engine around iso t u
      → Serves engine around iso t
          (approve iso engine user context reason now id (start u commits)).1.saved
  submitting :
      (u : Tables D) (user : AppUser) (context : UserAccessContext) (now : ℕ) (reason : String)
      (id fresh_id : Uuid) (is_integrity_error : Bool) (commits : List Bool)
      → u.approvals fresh_id ≡ none
      → Serves engine around iso t u
      → Serves engine around iso t
          (submit_request around user context reason now fresh_id is_integrity_error id
            (start u commits)).1.saved
  cancelling :
      (u : Tables D) (user : AppUser) (context : UserAccessContext) (now : ℕ) (reason : String)
      (id : Uuid) (commits : List Bool)
      → Serves engine around iso t u
      → Serves engine around iso t
          (cancel_request around user context reason now id (start u commits)).1.saved

module _ {D : Type 0} (engine : Engine D) (fair : IsFair engine.meanwhile) (around : Surroundings D)
    (fair' : IsFair around.meanwhile) (iso : ℕ → String) (t : Tables D) (c : IsCoherent t) where
  -- What others have made of the tables, or not.
  theirs-IsCoherent :
      (u b : Tables D) → IsCoherent u → (b ≡ u) ⊎ (b ≡ around.meanwhile u) → IsCoherent b
  theirs-IsCoherent u b cu (inl e) = subst IsCoherent (sym e) cu
  theirs-IsCoherent u b cu (inr e) = subst IsCoherent (sym e) (fair'.coherent u cu)

  theirs-IsDecided :
      (u b : Tables D) (j : Uuid) (p : ApprovalRequest)
      → IsDecided u j p
      → (b ≡ u) ⊎ (b ≡ around.meanwhile u)
      → IsDecided b j p
  theirs-IsDecided u b j p d (inl e) = subst (λ v. IsDecided v j p) (sym e) d
  theirs-IsDecided u b j p d (inr e) = subst (λ v. IsDecided v j p) (sym e) (fair'.decided u j p d)

  -- From coherent tables, any sequence of submissions, cancellations, approvals and rejections keeps
  -- every action in step with its approval, where the other transactions keep the tables coherent and
  -- write no decided approval.
  pub Serves-IsCoherent : (u : Tables D) → Serves engine around iso t u → IsCoherent u
  Serves-IsCoherent _ idle = c
  Serves-IsCoherent _ (rejecting u user context now reason id commits before) =
      let cu = Serves-IsCoherent u before in
      Moves-IsCoherent (reject user now iso reason context id (start u commits)).1 cu
        (reject-Moves user now iso reason context u cu.keyed commits id)
  Serves-IsCoherent _ (approving u user context now reason id commits before) =
      let cu = Serves-IsCoherent u before in
      let (outcome, s) = approve iso engine user context reason now id (start u commits) in
      let (b, shifts, told) =
        approve-Settles iso engine user context reason now u cu.keyed commits fair.keyed id in
      Moves-IsCoherent s (Shifts-IsCoherent engine fair b cu shifts) (Told-Moves b outcome s told)
  Serves-IsCoherent _ (submitting u user context now reason id fresh_id kind commits fresh before) =
      let cu = Serves-IsCoherent u before in
      let ((b, from, acts), _) =
        submit_request-Told around user context reason now fresh_id kind u cu (fair'.coherent u cu)
          fresh commits id in
      Acts-IsCoherent
        (submit_request around user context reason now fresh_id kind id (start u commits)).1
        (theirs-IsCoherent u b cu from) acts
  Serves-IsCoherent _ (cancelling u user context now reason id commits before) =
      let cu = Serves-IsCoherent u before in
      Acts-IsCoherent (cancel_request around user context reason now id (start u commits)).1 cu (
        Told-Acts (cancel_request around user context reason now id (start u commits))
          (cancel_request-Told around user context reason now u cu commits id))

  -- A decision is final: from coherent tables, an approval that has been decided is the same row after
  -- any sequence of submissions, cancellations, approvals and rejections, where the other transactions
  -- keep the tables coherent and write no decided approval.
  pub Serves-IsDecided :
      (u : Tables D) (j : Uuid) (p : ApprovalRequest)
      → IsDecided t j p
      → Serves engine around iso t u
      → IsDecided u j p
  Serves-IsDecided _ j p d idle = d
  Serves-IsDecided _ j p d (rejecting u user context now reason id commits before) =
      Moves-IsDecided (reject user now iso reason context id (start u commits)).1 j p
        (Serves-IsDecided u j p d before)
        (reject-Moves user now iso reason context u (Serves-IsCoherent u before).keyed commits id)
  Serves-IsDecided _ j p d (approving u user context now reason id commits before) =
      let (outcome, s) = approve iso engine user context reason now id (start u commits) in
      let (b, shifts, told) =
        approve-Settles iso engine user context reason now u (Serves-IsCoherent u before).keyed
          commits fair.keyed id in
      Moves-IsDecided s j p
        (Shifts-IsDecided engine fair b j p (Serves-IsDecided u j p d before) shifts)
        (Told-Moves b outcome s told)
  Serves-IsDecided _ j p d
        (submitting u user context now reason id fresh_id kind commits fresh before) =
      let ((b, from, acts), _) =
        submit_request-Told around user context reason now fresh_id kind u
          (Serves-IsCoherent u before) (fair'.coherent u (Serves-IsCoherent u before)) fresh commits
          id in
      Acts-IsDecided
        (submit_request around user context reason now fresh_id kind id (start u commits)).1 j p
        (theirs-IsDecided u b j p (Serves-IsDecided u j p d before) from) acts
  Serves-IsDecided _ j p d (cancelling u user context now reason id commits before) =
      Acts-IsDecided (cancel_request around user context reason now id (start u commits)).1 j p
        (Serves-IsDecided u j p d before)
        (Told-Acts (cancel_request around user context reason now id (start u commits)) (
          cancel_request-Told around user context reason now u (Serves-IsCoherent u before) commits
            id))
