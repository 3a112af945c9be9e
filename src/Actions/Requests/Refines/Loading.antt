-- ===== src/Actions/Requests/Refines/Loading.antt =====
-- `action_request.approval_request` on coherent tables.
use queryops_ai.Prelude.{
  true, false, Option, none, some, List, [], ◌∷◌, contains_id, ◌==◌, ◌≡◌, sym, ap, ◌∙◌, inl, inr,
  arith, Option-cases, Bool-cases, ==_iff,
}
use queryops_ai.Prelude.Uuid.{Uuid}
use queryops_ai.Actions.Rows.{ActionRequest, ApprovalRequest, Tables}
use queryops_ai.Actions.Lifecycle.Base.{links_to}
use queryops_ai.Actions.Lifecycle.Invariant.{IsCoherent}
use queryops_ai.Actions.Requests.{approval_among, approval_of}
use queryops_ai.Actions.Requests.Changes.{IsUnlinked}

module _ (rows : Uuid → Option ApprovalRequest) (i : Uuid) where
  approval_among_sound :
      (keys : List Uuid) (p : ApprovalRequest)
      → approval_among rows i keys ≡ some p
      → (k : Uuid) × (rows k ≡ some p) × (links_to p.action_request_id i ≡ true)
  unfolding approval_among
  approval_among_sound [] p h = cc
  approval_among_sound (k ∷ ks) p h = elim (Option-cases (rows k)) [
    | inl e ↦ approval_among_sound ks p (rw (e, approval_among) at h)
    | inr (q, e) ↦ elim (Bool-cases (links_to q.action_request_id i)) [
      | inl linked ↦ (k, ground (arith, e, linked), ground (arith, e, linked))
      | inr free ↦ approval_among_sound ks p (ground (arith, e, free))
    ]
  ]

  approval_among-none :
      (keys : List Uuid)
      → approval_among rows i keys ≡ none
      → (k : Uuid) (p : ApprovalRequest) → contains_id k keys ≡ true
      → rows k ≡ some p
      → links_to p.action_request_id i ≡ false
  unfolding approval_among
  approval_among-none [] h k p among at = cc
  approval_among-none (j ∷ js) h k p among at = elim (Bool-cases (k == j)) [
    | inl same ↦
        let at_j : rows j ≡ some p = ap rows (sym ((==_iff k j).0 same)) ∙ at in
        ground (arith, at_j)
    | inr other ↦ elim (Option-cases (rows j)) [
      | inl e ↦ approval_among-none js (rw (e, approval_among) at h) k p (rw other at among) at
      | inr (q, e) ↦ approval_among-none js (ground (arith, e)) k p (rw other at among) at
    ]
  ]

module _ {D : Type 0} {t : Tables D} (c : IsCoherent t) (a : ActionRequest) where
  -- What is loaded stands in the table and names the action.
  pub approval_of_sound :
      (p : ApprovalRequest)
      → approval_of t a ≡ some p
      → (t.approvals p.id ≡ some p) × (links_to p.action_request_id a.id ≡ true)
  unfolding approval_of
  approval_of_sound p h =
      let (k, at, linked) = approval_among_sound t.approvals a.id t.approval_keys p h in
      (ap t.approvals (c.keyed.approvals k p at) ∙ at, linked)

  -- Nothing is loaded only if nothing names the action.
  pub approval_of-none : approval_of t a ≡ none → IsUnlinked t a.id
  unfolding approval_of
  approval_of-none h k p at =
      approval_among-none t.approvals a.id t.approval_keys h k p (c.listed k p at) at
