-- ===== src/Actions/Requests/Refines/Expiry.antt =====
-- `_expire_action_request`
use queryops_ai.Prelude.{
  ℕ, String, Bool, true, false, Option, none, some, List, [], ◌∷◌, ◌++◌, ◌≡◌, ◌≢◌, refl, sym, ap,
  subst, ◌∙◌, ◌⊎◌, inl, inr,
}
use queryops_ai.Prelude.Uuid.{Uuid}
use queryops_ai.Auth.Permissions.{AppUser}
use queryops_ai.Actions.Rows.{
  ActionRequest, ApprovalRequest, ActionStatus, ApprovalStatus, Tables, is_pending_approval,
}
use queryops_ai.Actions.Session.{Session, start, put}
use queryops_ai.Actions.Lifecycle.Base.{Outcome, returned, raised, crashed, commit_or_fail}
use queryops_ai.Actions.Lifecycle.Expire.{expired_action, expired_approval}
use queryops_ai.Actions.Lifecycle.Refines.Locks.{commit_or_fail_cases}
use queryops_ai.Actions.Lifecycle.Steps.{Verdict}
use queryops_ai.Actions.Lifecycle.Invariant.{IsCoherent, is_coherent}
use queryops_ai.Actions.Requests.{ActionReply, approval_of}
use queryops_ai.Actions.Requests.Expire.{
  ExpirationKind, expired_with, save_loaded, raise_expired, requester_expiry_audit,
  expire_action_request,
}
use queryops_ai.Actions.Requests.Refines.Loading.{approval_of_sound, approval_of-none}
use queryops_ai.Actions.Requests.Changes.{Change, decides, lapses, Acts}

-- The statuses in which an action can still expire.
abbrev pub IsOpen : ActionStatus → Type 0
IsOpen s = (s ≡ ActionStatus.draft_preview) ⊎ (s ≡ ActionStatus.pending_approval)

pub draft_never : (q : ApprovalStatus) → is_coherent ActionStatus.draft_preview q ≡ false
draft_never ApprovalStatus.pending = refl
draft_never ApprovalStatus.approved = refl
draft_never ApprovalStatus.rejected = refl
draft_never ApprovalStatus.cancelled = refl
draft_never ApprovalStatus.expired = refl

pending_together :
    (q : ApprovalStatus)
    → is_coherent ActionStatus.pending_approval q ≡ true
    → q ≡ ApprovalStatus.pending
pending_together ApprovalStatus.pending h = refl
pending_together ApprovalStatus.approved h = cc
pending_together ApprovalStatus.rejected h = cc
pending_together ApprovalStatus.cancelled h = cc
pending_together ApprovalStatus.expired h = cc

-- An approval beside an action that is open is pending, and so is the action.
pub coherent_pending :
    (s : ActionStatus) (q : ApprovalStatus)
    → IsOpen s
    → is_coherent s q ≡ true
    → (s ≡ ActionStatus.pending_approval) × (q ≡ ApprovalStatus.pending)
coherent_pending s q (inl e) k =
    absurd (cc (ap (λ (r : ActionStatus). is_coherent r q) e, draft_never q, k))
coherent_pending s q (inr e) k =
    (e, pending_together q (ap (λ (r : ActionStatus). is_coherent r q) (sym e) ∙ k))

raise_expired-session :
    {D : Type 0} (A : Type 0) (r : Outcome (Unit {0}) × Session D)
    → (raise_expired {A = A} r).1 ≡ r.1
raise_expired-session A (returned u, s) = refl
raise_expired-session A (raised e, s) = refl
raise_expired-session A (crashed, s) = refl

raise_expired-raises :
    {D : Type 0} (A : Type 0) (r : Outcome (Unit {0}) × Session D) (reply : A)
    → (raise_expired {A = A} r).0 ≢ returned reply
raise_expired-raises A (returned u, s) reply h = cc
raise_expired-raises A (raised e, s) reply h = cc
raise_expired-raises A (crashed, s) reply h = cc

-- What an answer tells. Without an answer, at most one change was made.
abbrev pub Told :
    {D : Type 0}
    → (ActionReply → Session D → Type 0)
    → Tables D
    → Outcome ActionReply × Session D
    → Type 0
Told P t (returned r, s) = P r s
Told P t (raised e, s) = Acts t s
Told P t (crashed, s) = Acts t s

Acts-Told :
    {D : Type 0} (P : ActionReply → Session D → Type 0) (t : Tables D)
    (r : Outcome ActionReply × Session D)
    → ((reply : ActionReply) → r.0 ≢ returned reply)
    → Acts t r.1
    → Told P t r
Acts-Told P t (returned x, s) h acts = absurd (h x refl)
Acts-Told P t (raised e, s) h acts = acts
Acts-Told P t (crashed, s) h acts = acts

pub is_pending_approval-eq :
    (s : ActionStatus) → is_pending_approval s ≡ true → s ≡ ActionStatus.pending_approval
is_pending_approval-eq ActionStatus.pending_approval h = refl
is_pending_approval-eq ActionStatus.draft_preview h = cc
is_pending_approval-eq ActionStatus.approved_executing h = cc
is_pending_approval-eq ActionStatus.completed h = cc
is_pending_approval-eq ActionStatus.rejected h = cc
is_pending_approval-eq ActionStatus.failed h = cc
is_pending_approval-eq ActionStatus.cancelled h = cc
is_pending_approval-eq ActionStatus.expired h = cc

-- A commit shows the change, or the rollback after it shows what was there.
pub commit_or_fail-Acts :
    {D A : Type 0} (message : String) (value : A) (t w : Tables D) (commits : List Bool)
    → Change t w
    → Acts t (commit_or_fail message value (record { saved = t; working = w; commits = commits })).1
commit_or_fail-Acts message value t w commits change =
    elim (commit_or_fail_cases message value t w commits) [
      | inl (_, e) ↦ inr (w, change, e)
      | inr (_, e) ↦ inl e
    ]

module _ {D : Type 0} (user : AppUser) (now : ℕ) (kind : ExpirationKind) (t : Tables D)
    (c : IsCoherent t) (commits : List Bool) (a : ActionRequest) (found : t.actions a.id ≡ some a)
    (is_open : IsOpen a.status) where
  abbrev after_expiry : Option ApprovalRequest → Tables D
  after_expiry approval =
      (save_loaded now approval (record (start t commits) {
        working = record t {
          actions = put t.actions a.id (expired_action a);
          audits = t.audits ++ requester_expiry_audit user a approval kind ∷ [];
        };
      })).working

  expiry-Change :
      (approval : Option ApprovalRequest)
      → approval_of t a ≡ approval
      → Change t (after_expiry approval)
  expiry-Change none e = lapses (record {
    a = a;
    a' = expired_action a;
    found = found;
    unlinked = approval_of-none c a e;
    same_id = refl;
    open_before = is_open;
    expired_after = refl;
    actions = λ j. refl;
    approvals = λ j. refl;
    keys = refl;
    log = requester_expiry_audit user a none kind;
    audited = refl;
    domain = refl;
  })
  expiry-Change (some p) e =
      let (found_p, linked) = approval_of_sound c a p e in
      let (action_pending, approval_pending) =
        coherent_pending a.status p.status is_open
          (c.together p.id a.id p a found_p found linked) in
      let same : expired_with now p ≡ expired_approval now p = rw approval_pending refl in
      decides (record {
        verdict = Verdict.expire;
        a = a;
        a' = expired_action a;
        p = p;
        p' = expired_with now p;
        before = record {
          pair = record { found_action = found; found_approval = found_p; linked = linked };
          action_pending = action_pending;
          approval_pending = approval_pending;
        };
        same_action = refl;
        same_approval = ap ApprovalRequest.id same;
        same_link = ap ApprovalRequest.action_request_id same;
        action_status = refl;
        approval_status = ap ApprovalRequest.status same;
        actions = λ j. refl;
        approvals = λ j.
            ap (λ (k : Uuid). put t.approvals k (expired_with now p) j)
              (ap ApprovalRequest.id same);
        keys = refl;
        logs = requester_expiry_audit user a (some p) kind ∷ [];
        audited = refl;
        audit_count = refl;
        domain = inr refl;
      })

  expiry_at :
      (A : Type 0) (approval : Option ApprovalRequest)
      → approval_of t a ≡ approval
      → Acts t (expire_action_request {A = A} user a approval now kind (start t commits)).1
  unfolding expire_action_request
  expiry_at A none e =
      subst (Acts t) (sym (raise_expired-session A _))
        (commit_or_fail-Acts _ _ t (after_expiry none) commits (expiry-Change none e))
  expiry_at A (some p) e =
      subst (Acts t) (sym (raise_expired-session A _))
        (commit_or_fail-Acts _ _ t (after_expiry (some p)) commits (expiry-Change (some p) e))

  -- An expiry raises, whatever an answer would have to tell.
  pub expire_action_request-Told :
      (P : ActionReply → Session D → Type 0)
      → Told P t (expire_action_request user a (approval_of t a) now kind (start t commits))
  unfolding expire_action_request
  expire_action_request-Told P =
      Acts-Told P t _ (raise_expired-raises ActionReply _)
        (expiry_at ActionReply (approval_of t a) refl)
