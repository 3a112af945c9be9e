-- ===== src/Actions/Lifecycle/Once.antt =====
-- Requests after a decided approval, over `approve` of action_engine/approval.py.
use queryops_ai.Prelude.{
  ℕ, String, Bool, false, some, List, if◌then◌else◌, ◌≡◌, ◌⊎◌, ◌∙◌, refl, sym, subst, inl, inr,
  arith, Bool-cases, Option-cases,
}
use mathlib.Core.Option.{some-injective}
use queryops_ai.Prelude.Uuid.{Uuid}
use queryops_ai.Auth.Permissions.{AppUser}
use queryops_ai.Auth.Context.{UserAccessContext}
use queryops_ai.Actions.Rows.{ActionRequest, ApprovalRequest, ApprovalStatus, Tables, is_pending}
use queryops_ai.Actions.Notifications.{approval_decision}
use queryops_ai.Actions.Session.{Session, start}
use queryops_ai.Actions.Lifecycle.Base.{
  Outcome, returned, raised, crashed, not_found, already_processed, locked_pair, require_pending,
}
use queryops_ai.Actions.Lifecycle.Handlers.{Engine}
use queryops_ai.Actions.Lifecycle.Approve.{ApproveReply, approve_pair, approve}
use queryops_ai.Actions.Lifecycle.Refines.Locks.{both_pending, pending_only, locked_pair-approval}
use queryops_ai.Actions.Lifecycle.Invariant.{IsCoherent}
use queryops_ai.Actions.Requests.{Surroundings}
use queryops_ai.Actions.Lifecycle.Service.{
  IsDecided, IsFair, Serves, idle, approving, Serves-IsCoherent, Serves-IsDecided,
}
use queryops_ai.Actions.Lifecycle.Refines.Ending.{IsClosed, Closes}
use queryops_ai.Actions.Lifecycle.Refines.Closing.{approve-Closes}

-- An approval of a pair that is not pending, whatever the handlers are.
refused_again :
    {D : Type 0} (engine : Engine D) (iso : ℕ → String) (t : Tables D) (user : AppUser)
    (context : UserAccessContext) (now : ℕ) (reason : String) (id : Uuid) (commits : List Bool)
    (a : ActionRequest) (p : ApprovalRequest)
    → locked_pair t id ≡ some (a, p)
    → both_pending a p ≡ false
    → approve iso engine user context reason now id (start t commits) ≡ (
      raised (if (approval_decision a context).allowed then already_processed else not_found),
      start t commits,
    )
unfolding approve approve_pair require_pending locked_pair approval_decision
refused_again engine iso t user context now reason id commits a p there decided =
    rw there (ground arith)

not_pending :
    (a : ActionRequest) (p : ApprovalRequest)
    → ¬ (p.status ≡ ApprovalStatus.pending)
    → both_pending a p ≡ false
not_pending a p decided = elim (Bool-cases (is_pending p.status)) [
  | inl pending ↦ absurd (decided (pending_only p.status pending))
  | inr other ↦ ground (arith, other)
]

-- Nothing happens, and the answer is one of two errors.
abbrev pub IsRefused : {D : Type 0} → Outcome ApproveReply × Session D → Session D → Type 0
IsRefused answer s = (answer ≡ (raised already_processed, s)) ⊎ (answer ≡ (raised not_found, s))

module _ {D : Type 0} (engine : Engine D) (fair : IsFair engine.meanwhile) (around : Surroundings D)
    (fair' : IsFair around.meanwhile) (iso : ℕ → String) (t : Tables D) (c : IsCoherent t) where
  -- Once an approval has been decided, it is never executed again: take coherent tables in which it is
  -- decided, and any sequence of submissions, cancellations, approvals and rejections from there, where
  -- the other transactions keep the tables coherent and write no decided approval. Then whoever
  -- approves it, at any time and whatever the handlers do, runs none of them: everything stays as it
  -- is, and the answer is that the request has been processed or that there is none.
  pub Serves-IsRefused :
      (u : Tables D) (j : Uuid) (p : ApprovalRequest)
      → IsDecided t j p
      → Serves engine around iso t u
      → (again : Engine D) (user : AppUser) (context : UserAccessContext) (now : ℕ)
        (reason : String) (commits : List Bool)
      → IsRefused (approve iso again user context reason now j (start u commits)) (start u commits)
  unfolding approve
  Serves-IsRefused u j p d serves again user context now reason commits =
      let (found, decided) = Serves-IsDecided engine fair around fair' iso t c u j p d serves in
      elim (Option-cases (locked_pair u j)) [
        | inl absent ↦ inr (rw (absent, approve) refl)
        | inr ((a, q), locked) ↦
            let same : q ≡ p = some-injective q p (sym (locked_pair-approval u j locked) ∙ found) in
            let closed : both_pending a q ≡ false = not_pending a q (
              subst (λ (r : ApprovalRequest). ¬ (r.status ≡ ApprovalStatus.pending)) (sym same)
                decided) in
            let refused =
              refused_again again iso u user context now reason j commits a q locked closed in
            elim (Bool-cases (approval_decision a context).allowed) [
              | inl allows ↦ inl (refused ∙ rw allows refl)
              | inr denies ↦ inr (refused ∙ rw denies refl)
            ]
      ]

IsClosed-after :
    {D : Type 0} (j : Uuid) (outcome : Outcome ApproveReply) (s : Session D) (r : ApproveReply)
    → Closes j (outcome, s)
    → outcome ≡ returned r
    → IsClosed s.saved j
IsClosed-after j (returned _) s r h e = h
IsClosed-after j (raised _) s r h e = cc
IsClosed-after j crashed s r h e = cc

-- An approval is executed at most once: on coherent tables, once `approve` has returned a reply for it,
-- whether of a completion or of a failure, no handler is run for it again. After any sequence of
-- submissions, cancellations, approvals and rejections, where the other transactions keep the tables
-- coherent and write no decided approval, whoever approves it, at any time and whatever the handlers do,
-- leaves everything as it is, and is told that the request has been processed or that there is none.
pub approve_at_most_once :
    {D : Type 0} (engine : Engine D) (around : Surroundings D) (iso : ℕ → String) (t u : Tables D)
    (user : AppUser) (context : UserAccessContext) (reason : String) (now : ℕ) (j : Uuid)
    (commits : List Bool) (r : ApproveReply)
    → IsFair engine.meanwhile
    → IsFair around.meanwhile
    → IsCoherent t
    → (approve iso engine user context reason now j (start t commits)).0 ≡ returned r
    → Serves engine around iso
        (approve iso engine user context reason now j (start t commits)).1.saved
        u
    → (again : Engine D) (user' : AppUser) (context' : UserAccessContext) (now' : ℕ)
      (reason' : String) (commits' : List Bool)
    → IsRefused
        (approve iso again user' context' reason' now' j (start u commits'))
        (start u commits')
approve_at_most_once engine around iso t u user context reason now j commits r fair fair' c replied
      serves =
    let answer = approve iso engine user context reason now j (start t commits) in
    let c' =
      Serves-IsCoherent engine fair around fair' iso t c answer.1.saved
        (approving t user context now reason j commits idle) in
    let (p, found, decided) =
      IsClosed-after j answer.0 answer.1 r
        (approve-Closes iso engine user context reason now fair.keyed t commits j c.keyed)
        replied in
    Serves-IsRefused engine fair around fair' iso answer.1.saved c' u j p (found, decided) serves
