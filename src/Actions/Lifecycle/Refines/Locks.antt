-- ===== src/Actions/Lifecycle/Refines/Locks.antt =====
-- The locked pair, and the two ways in which a commit ends.
use queryops_ai.Prelude.{
  ℕ, String, Bool, true, false, not, ◌&&◌, Option, none, some, List, [], ◌∷◌, ◌≡◌, refl, ap, ◌∙◌,
  ◌⊎◌, inl, inr, arith, Option-cases,
}
use queryops_ai.Prelude.Uuid.{Uuid}
use queryops_ai.Actions.Rows.{
  ActionRequest, ApprovalRequest, ActionStatus, ApprovalStatus, Tables, is_pending_approval,
  is_pending,
}
use queryops_ai.Actions.Session.{commit, rollback}
use queryops_ai.Actions.Lifecycle.Base.{
  returned, raised, internal_error, passed, ahead, links_to, locked_pair, pair_of, commit_or_fail,
  require_pending, is_expired,
}
use queryops_ai.Actions.Lifecycle.Steps.{IsKeyed, IsPair, IsPendingPair, Step, Moves}

pub ahead-passed : (deadline : Option ℕ) (now : ℕ) → ahead deadline now ≡ not (passed deadline now)
ahead-passed none now = refl
ahead-passed (some t) now = refl

module _ {D : Type 0} {A : Type 0} (message : String) (value : A) (t w : Tables D) where
  -- A commit shows the work, or the rollback after it shows what was there.
  pub commit_or_fail_cases :
      (commits : List Bool)
      → let (o, s) =
          commit_or_fail message value (record { saved = t; working = w; commits = commits }) in
        ((o ≡ returned value) × (s.saved ≡ w))
        ⊎ ((o ≡ raised (internal_error message)) × (s.saved ≡ t))
  unfolding commit_or_fail commit rollback
  commit_or_fail_cases [] = inl (refl, refl)
  commit_or_fail_cases (true ∷ rest) = inl (refl, refl)
  commit_or_fail_cases (false ∷ rest) = inr (refl, refl)

  pub commit_or_fail-Moves :
      (commits : List Bool)
      → Step t w
      → Moves t
          (commit_or_fail message value (record { saved = t; working = w; commits = commits })).1
  unfolding commit_or_fail commit rollback
  commit_or_fail-Moves [] step = inr (w, step, refl)
  commit_or_fail-Moves (true ∷ rest) step = inr (w, step, refl)
  commit_or_fail-Moves (false ∷ rest) step = inl refl

module _ {D : Type 0} (t : Tables D) where
  pair_of_sound :
      (id : Uuid) (link : Option Uuid) {a : ActionRequest} {p : ApprovalRequest}
      → pair_of t id link ≡ some (a, p)
      → (i : Uuid) × (link ≡ some i)
        × (t.actions i ≡ some a)
        × (t.approvals id ≡ some p)
        × (links_to p.action_request_id a.id ≡ true)
  pair_of_sound id none h = cc
  pair_of_sound id (some i) h = (i, refl, ground arith, ground arith, ground arith)

  -- The locked approval is the one with the given id.
  pub locked_pair-approval :
      (id : Uuid) {a : ActionRequest} {p : ApprovalRequest}
      → locked_pair t id ≡ some (a, p)
      → t.approvals id ≡ some p
  unfolding locked_pair
  locked_pair-approval id {a} {p} h = elim (Option-cases (t.approvals id)) [
    | inl absent ↦ ground (arith, absent)
    | inr (q, there) ↦
        let h' : pair_of t id q.action_request_id ≡ some (a, p) = ground arith in
        let (_, _, _, found_p, _) = pair_of_sound id q.action_request_id h' in found_p
  ]

module _ {D : Type 0} (t : Tables D) (keyed : IsKeyed t) where
  -- The pair that is locked is the approval of the given id and the action that it names.
  pub locked_pair-IsPair :
      (id : Uuid) {a : ActionRequest} {p : ApprovalRequest}
      → locked_pair t id ≡ some (a, p)
      → IsPair t a p
  unfolding locked_pair
  locked_pair-IsPair id {a} {p} h = elim (Option-cases (t.approvals id)) [
    | inl absent ↦ ground (arith, absent)
    | inr (q, there) ↦
        let h' : pair_of t id q.action_request_id ≡ some (a, p) = ground arith in
        let (i, named, found_a, found_p, linked) = pair_of_sound t id q.action_request_id h' in
        record {
          found_action = ap t.actions (keyed.actions i a found_a) ∙ found_a;
          found_approval = ap t.approvals (keyed.approvals id p found_p) ∙ found_p;
          linked = linked;
        }
  ]

-- Both rows are still to be decided.
abbrev pub both_pending : ActionRequest → ApprovalRequest → Bool
both_pending a p = is_pending_approval a.status && is_pending p.status

pending_approval_only :
    (s : ActionStatus) → is_pending_approval s ≡ true → s ≡ ActionStatus.pending_approval
pending_approval_only s h = ground arith

pub pending_only : (s : ApprovalStatus) → is_pending s ≡ true → s ≡ ApprovalStatus.pending
pending_only s h = ground arith

pub IsPendingPair-of_both_pending :
    {D : Type 0} {t : Tables D} {a : ActionRequest} {p : ApprovalRequest}
    → IsPair t a p
    → both_pending a p ≡ true
    → IsPendingPair t a p
IsPendingPair-of_both_pending {a} {p} pair h = record {
  pair = pair;
  action_pending = pending_approval_only a.status (ground arith);
  approval_pending = pending_only p.status (ground arith);
}

-- What passes `_require_pending` is pending and has time left.
pub require_pending-none :
    (a : ActionRequest) (p : ApprovalRequest) (now : ℕ)
    → require_pending a p now ≡ none
    → (both_pending a p ≡ true) × (is_expired a p now ≡ false)
unfolding require_pending
require_pending-none a p now h = (ground arith, ground arith)
