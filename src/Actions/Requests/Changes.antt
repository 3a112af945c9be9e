-- ===== src/Actions/Requests/Changes.antt =====
-- What the requester may do to the tables, beside the decisions of the approval lifecycle: submit a draft,
-- and let a request that has no approval expire. What each of these keeps.
use queryops_ai.Prelude.{
  true, false, none, some, [], ◌∷◌, ◌++◌, contains_id, ◌==◌, ◌≡◌, refl, sym, ap, subst, ◌∙◌, ◌⊎◌,
  inl, inr, arith, Bool-cases, ==_iff, ==_refl,
}
use queryops_ai.Prelude.Uuid.{Uuid}
use queryops_ai.Actions.Rows.{
  ActionRequest, ApprovalRequest, ActionStatus, ApprovalStatus, AuditLog, Tables,
}
use queryops_ai.Actions.Session.{Session, put}
use queryops_ai.Actions.Lifecycle.Base.{links_to}
use queryops_ai.Actions.Lifecycle.Steps.{Step}
use queryops_ai.Actions.Lifecycle.Invariant.{
  IsCoherent, is_coherent, put-cases, Step-IsCoherent, Step-decided,
}

-- No approval names the action.
abbrev pub IsUnlinked : {D : Type 0} → Tables D → Uuid → Type 0
IsUnlinked t i =
    (k : Uuid) (p : ApprovalRequest)
    → t.approvals k ≡ some p
    → links_to p.action_request_id i ≡ false

-- An action without an approval expires alone.
pub record Lapse {D : Type 0} (t t' : Tables D) : Type 0 where
  pub a : ActionRequest
  pub a' : ActionRequest
  pub found : t.actions a.id ≡ some a
  pub unlinked : IsUnlinked t a.id
  pub same_id : a'.id ≡ a.id
  pub open_before :
      (a.status ≡ ActionStatus.draft_preview) ⊎ (a.status ≡ ActionStatus.pending_approval)
  pub expired_after : a'.status ≡ ActionStatus.expired
  pub actions : (j : Uuid) → t'.actions j ≡ put t.actions a.id a' j
  pub approvals : (j : Uuid) → t'.approvals j ≡ t.approvals j
  pub keys : t'.approval_keys ≡ t.approval_keys
  pub log : AuditLog
  pub audited : t'.audits ≡ t.audits ++ log ∷ []
  pub domain : t'.domain ≡ t.domain

-- A draft becomes pending, together with a new approval that names it.
pub record Submission {D : Type 0} (t t' : Tables D) : Type 0 where
  pub a : ActionRequest
  pub a' : ActionRequest
  pub p : ApprovalRequest
  pub found : t.actions a.id ≡ some a
  pub draft_before : a.status ≡ ActionStatus.draft_preview
  pub unlinked : IsUnlinked t a.id
  pub fresh : t.approvals p.id ≡ none
  pub same_id : a'.id ≡ a.id
  pub linked : p.action_request_id ≡ some a.id
  pub action_pending : a'.status ≡ ActionStatus.pending_approval
  pub approval_pending : p.status ≡ ApprovalStatus.pending
  pub actions : (j : Uuid) → t'.actions j ≡ put t.actions a.id a' j
  pub approvals : (j : Uuid) → t'.approvals j ≡ put t.approvals p.id p j
  pub keys : t'.approval_keys ≡ p.id ∷ t.approval_keys
  pub log : AuditLog
  pub audited : t'.audits ≡ t.audits ++ log ∷ []
  pub domain : t'.domain ≡ t.domain

pub data Change {D : Type 0} (t t' : Tables D) : Type 0 where
  decides : Step t t' → Change t t'
  lapses : Lapse t t' → Change t t'
  submits : Submission t t' → Change t t'

-- A method changed nothing that others can see, or made one change.
abbrev pub Acts : {D : Type 0} → Tables D → Session D → Type 0
Acts {D} t s = (s.saved ≡ t) ⊎ ((after : Tables D) × Change t after × (s.saved ≡ after))

module _ {D : Type 0} {t t' : Tables D} where
  Lapse-IsCoherent : Lapse t t' → IsCoherent t → IsCoherent t'
  Lapse-IsCoherent l c = record {
    keyed = record {
      actions = λ k x h. elim (put-cases t.actions l.a.id l.a' k x (sym (l.actions k) ∙ h)) [
        | inl (at, e) ↦ ap ActionRequest.id e ∙ l.same_id ∙ sym at
        | inr (_, found) ↦ c.keyed.actions k x found
      ];
      approvals = λ k p h. c.keyed.approvals k p (sym (l.approvals k) ∙ h);
    };
    listed = λ k p at. ap (contains_id k) l.keys ∙ c.listed k p (sym (l.approvals k) ∙ at);
    one_each = λ j k p q i at_j at_k.
        c.one_each j k p q i (sym (l.approvals j) ∙ at_j) (sym (l.approvals k) ∙ at_k);
    together = λ j i p a at_j at_i linked.
        let old_p = sym (l.approvals j) ∙ at_j in
        elim (put-cases t.actions l.a.id l.a' i a (sym (l.actions i) ∙ at_i)) [
          | inl (at, e) ↦
              let free = l.unlinked j p old_p in
              absurd (cc (ap (links_to p.action_request_id) at, linked, free))
          | inr (_, found) ↦ c.together j i p a old_p found linked
        ];
  }

  module _ (m : Submission t t') (c : IsCoherent t) where
    -- The new approval names the submitted action and no other.
    new_links : (i : Uuid) → links_to m.p.action_request_id i ≡ true → i ≡ m.a.id
    new_links i h = sym ((==_iff m.a.id i).0 (ap (λ l. links_to l i) (sym m.linked) ∙ h))

    approval_cases :
        (k : Uuid) (x : ApprovalRequest)
        → t'.approvals k ≡ some x
        → ((k ≡ m.p.id) × (x ≡ m.p)) ⊎ (((k == m.p.id) ≡ false) × (t.approvals k ≡ some x))
    approval_cases k x h = put-cases t.approvals m.p.id m.p k x (sym (m.approvals k) ∙ h)

    -- No old approval names what the new one names.
    old_or_new :
        (k : Uuid) (p q : ApprovalRequest) (i : Uuid)
        → p ≡ m.p
        → t.approvals k ≡ some q
        → links_to p.action_request_id i ≡ true
        → links_to q.action_request_id i ≡ true
        → ⊥
    old_or_new k p q i is_new old linked_p linked_q =
        let at = new_links i (subst (λ r. links_to r.action_request_id i ≡ true) is_new linked_p) in
        cc (m.unlinked k q old, ap (links_to q.action_request_id) at, linked_q)

    Submission-one_each :
        (j k : Uuid) (p q : ApprovalRequest) (i : Uuid)
        → t'.approvals j ≡ some p
        → t'.approvals k ≡ some q
        → links_to p.action_request_id i ≡ true
        → links_to q.action_request_id i ≡ true
        → j ≡ k
    Submission-one_each j k p q i at_j at_k linked_p linked_q = elim (approval_cases j p at_j) [
      | inl (j_is, p_is) ↦ elim (approval_cases k q at_k) [
        | inl (k_is, _) ↦ j_is ∙ sym k_is
        | inr (_, old) ↦ absurd (old_or_new k p q i p_is old linked_p linked_q)
      ]
      | inr (_, old) ↦ elim (approval_cases k q at_k) [
        | inl (_, q_is) ↦ absurd (old_or_new j q p i q_is old linked_q linked_p)
        | inr (_, old') ↦ c.one_each j k p q i old old' linked_p linked_q
      ]
    ]

    Submission-together :
        (j i : Uuid) (p : ApprovalRequest) (a : ActionRequest)
        → t'.approvals j ≡ some p
        → t'.actions i ≡ some a
        → links_to p.action_request_id i ≡ true
        → is_coherent a.status p.status ≡ true
    Submission-together j i p a at_j at_i linked =
        let action = put-cases t.actions m.a.id m.a' i a (sym (m.actions i) ∙ at_i) in
        elim (approval_cases j p at_j) [
          | inl (_, p_is) ↦
              let at =
                new_links i (subst (λ r. links_to r.action_request_id i ≡ true) p_is linked) in
              elim action [
                | inl (_, a_is) ↦ rw (a_is, p_is, m.action_pending, m.approval_pending) refl
                | inr (other, _) ↦ ground (arith, at, other)
              ]
          | inr (_, old) ↦ elim action [
            | inl (at, _) ↦
                absurd (cc (m.unlinked j p old, ap (links_to p.action_request_id) at, linked))
            | inr (_, found) ↦ c.together j i p a old found linked
          ]
        ]

    Submission-listed :
        (k : Uuid) (p : ApprovalRequest)
        → t'.approvals k ≡ some p
        → contains_id k (m.p.id ∷ t.approval_keys) ≡ true
    Submission-listed k p at = elim (approval_cases k p at) [
      | inl (k_is, _) ↦ rw (k_is, ==_refl m.p.id) refl
      | inr (other, old) ↦ rw other (c.listed k p old)
    ]

    Submission-IsCoherent : IsCoherent t'
    Submission-IsCoherent = record {
      keyed = record {
        actions = λ k x h. elim (put-cases t.actions m.a.id m.a' k x (sym (m.actions k) ∙ h)) [
          | inl (at, e) ↦ ap ActionRequest.id e ∙ m.same_id ∙ sym at
          | inr (_, found) ↦ c.keyed.actions k x found
        ];
        approvals = λ k x h. elim (approval_cases k x h) [
          | inl (at, e) ↦ ap ApprovalRequest.id e ∙ sym at
          | inr (_, found) ↦ c.keyed.approvals k x found
        ];
      };
      listed = λ k p at. ap (contains_id k) m.keys ∙ Submission-listed k p at;
      one_each = Submission-one_each;
      together = Submission-together;
    }

  -- Every change keeps the tables coherent.
  pub Change-IsCoherent : Change t t' → IsCoherent t → IsCoherent t'
  Change-IsCoherent (decides step) c = Step-IsCoherent step c
  Change-IsCoherent (lapses l) c = Lapse-IsCoherent l c
  Change-IsCoherent (submits m) c = Submission-IsCoherent m c

  -- No change writes an approval that has been decided.
  pub Change-decided :
      Change t t'
      → (j : Uuid) (p : ApprovalRequest) → t.approvals j ≡ some p
      → ¬ (p.status ≡ ApprovalStatus.pending)
      → t'.approvals j ≡ some p
  Change-decided (decides step) j p found decided = Step-decided step j p found decided
  Change-decided (lapses l) j p found decided = l.approvals j ∙ found
  Change-decided (submits m) j p found decided = elim (Bool-cases (j == m.p.id)) [
    | inl same ↦ absurd (cc (ap t.approvals ((==_iff j m.p.id).0 same), m.fresh, found))
    | inr other ↦ rw (m.approvals j, other) found
  ]
