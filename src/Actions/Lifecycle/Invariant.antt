-- ===== src/Actions/Lifecycle/Invariant.antt =====
-- What every decision of the state machine keeps, and what every sequence of decisions keeps.
use queryops_ai.Prelude.{
  Bool, true, false, Option, none, some, contains_id, ◌==◌, ◌≡◌, refl, ap, sym, ◌∙◌, ◌⊎◌, inl, inr,
  arith, Bool-cases, ==_iff,
}
use queryops_ai.Prelude.Uuid.{Uuid}
use mathlib.Core.Option.{some-injective}
use queryops_ai.Actions.Rows.{ActionRequest, ApprovalRequest, ActionStatus, ApprovalStatus, Tables}
use queryops_ai.Actions.Session.{put}
use queryops_ai.Actions.Lifecycle.Base.{links_to}
use queryops_ai.Actions.Lifecycle.Steps.{Verdict, action_after, approval_after, IsKeyed, Step}

-- The statuses that an action and its approval may have together.
abbrev pub is_coherent : ActionStatus → ApprovalStatus → Bool
is_coherent ActionStatus.pending_approval ApprovalStatus.pending = true
is_coherent ActionStatus.completed ApprovalStatus.approved = true
is_coherent ActionStatus.failed ApprovalStatus.approved = true
is_coherent ActionStatus.rejected ApprovalStatus.rejected = true
is_coherent ActionStatus.expired ApprovalStatus.expired = true
is_coherent ActionStatus.cancelled ApprovalStatus.cancelled = true
is_coherent _ _ = false

-- The approvals stand under the listed keys and name different actions (the column is UNIQUE), and the statuses of an approval and of
-- the action that it names go together.
pub record IsCoherent {D : Type 0} (t : Tables D) : Type 0 where
  pub keyed : IsKeyed t
  pub listed :
      (k : Uuid) (p : ApprovalRequest)
      → t.approvals k ≡ some p
      → contains_id k t.approval_keys ≡ true
  pub one_each :
      (j k : Uuid) (p q : ApprovalRequest) (i : Uuid)
      → t.approvals j ≡ some p
      → t.approvals k ≡ some q
      → links_to p.action_request_id i ≡ true
      → links_to q.action_request_id i ≡ true
      → j ≡ k
  pub together :
      (j i : Uuid) (p : ApprovalRequest) (a : ActionRequest)
      → t.approvals j ≡ some p
      → t.actions i ≡ some a
      → links_to p.action_request_id i ≡ true
      → is_coherent a.status p.status ≡ true

is_coherent_after : (v : Verdict) → is_coherent (action_after v) (approval_after v) ≡ true
is_coherent_after Verdict.expire = refl
is_coherent_after Verdict.reject = refl
is_coherent_after Verdict.complete = refl
is_coherent_after Verdict.fail = refl
is_coherent_after Verdict.escalate = refl
is_coherent_after Verdict.cancel = refl

-- What a row of the table after a write is: the written one, or one from before.
pub put-cases :
    {A : Type 0} (rows : Uuid → Option A) (k : Uuid) (r : A) (j : Uuid) (x : A)
    → put rows k r j ≡ some x
    → ((j ≡ k) × (x ≡ r)) ⊎ (((j == k) ≡ false) × (rows j ≡ some x))
put-cases rows k r j x h = elim (Bool-cases (j == k)) [
  | inl same ↦ inl ((==_iff j k).0 same, ground (arith, same))
  | inr other ↦ inr (other, ground (arith, other))
]

links_to_unique :
    (link : Option Uuid) (i j : Uuid) → links_to link i ≡ true → links_to link j ≡ true → i ≡ j
links_to_unique none i j hi hj = ground arith
links_to_unique (some k) i j hi hj = ground arith

module _ {D : Type 0} {t t' : Tables D} (step : Step t t') where
  action_cases :
      (k : Uuid) (x : ActionRequest)
      → t'.actions k ≡ some x
      → ((k ≡ step.a.id) × (x ≡ step.a')) ⊎ (((k == step.a.id) ≡ false) × (t.actions k ≡ some x))
  action_cases k x h = put-cases t.actions step.a.id step.a' k x (sym (step.actions k) ∙ h)

  approval_cases :
      (k : Uuid) (x : ApprovalRequest)
      → t'.approvals k ≡ some x
      → ((k ≡ step.p.id) × (x ≡ step.p')) ⊎ (((k == step.p.id) ≡ false) × (t.approvals k ≡ some x))
  approval_cases k x h = put-cases t.approvals step.p.id step.p' k x (sym (step.approvals k) ∙ h)

  -- A row that is no longer pending is never written again.
  pub Step-decided :
      (j : Uuid) (p : ApprovalRequest)
      → t.approvals j ≡ some p
      → ¬ (p.status ≡ ApprovalStatus.pending)
      → t'.approvals j ≡ some p
  Step-decided j p found decided = elim (Bool-cases (j == step.p.id)) [
    | inr other ↦ rw (step.approvals j, other) found
    | inl same ↦
        let e : step.p.id ≡ j = sym ((==_iff j step.p.id).0 same) in
        let same_row : some p ≡ some step.p =
          sym found ∙ ap t.approvals (sym e) ∙ step.before.pair.found_approval in
        elim (decided (
          ap ApprovalRequest.status (some-injective p step.p same_row)
          ∙ step.before.approval_pending)) [ ]
  ]

  -- The approval at a key names the same action as before.
  old_approval :
      (k : Uuid) (x : ApprovalRequest)
      → t'.approvals k ≡ some x
      → (y : ApprovalRequest) × (t.approvals k ≡ some y)
        × (x.action_request_id ≡ y.action_request_id)
  old_approval k x h = elim (approval_cases k x h) [
    | inl (at, e) ↦ (
      step.p,
      ap t.approvals at ∙ step.before.pair.found_approval,
      ap ApprovalRequest.action_request_id e ∙ step.same_link,
    )
    | inr (other, found) ↦ (x, found, refl)
  ]

  Step-IsKeyed : IsKeyed t → IsKeyed t'
  Step-IsKeyed keyed = record {
    actions = λ k x h. elim (action_cases k x h) [
      | inl (at, e) ↦ ap ActionRequest.id e ∙ step.same_action ∙ sym at
      | inr (other, found) ↦ keyed.actions k x found
    ];
    approvals = λ k x h. elim (approval_cases k x h) [
      | inl (at, e) ↦ ap ApprovalRequest.id e ∙ step.same_approval ∙ sym at
      | inr (other, found) ↦ keyed.approvals k x found
    ];
  }

  Step-together :
      IsCoherent t
      → (j i : Uuid) (p : ApprovalRequest) (a : ActionRequest) → t'.approvals j ≡ some p
      → t'.actions i ≡ some a
      → links_to p.action_request_id i ≡ true
      → is_coherent a.status p.status ≡ true
  Step-together c j i p a at_j at_i linked =
      let (y, found_y, same_link) = old_approval j p at_j in
      let linked_y : links_to y.action_request_id i ≡ true =
        ap (λ l. links_to l i) (sym same_link) ∙ linked in
      elim (approval_cases j p at_j) [
        | inl (j_is, p_is) ↦
            let linked_p : links_to step.p.action_request_id i ≡ true =
              ap (λ l. links_to l i)
                (sym step.same_link ∙ sym (ap ApprovalRequest.action_request_id p_is))
              ∙ linked in
            let i_is =
              links_to_unique step.p.action_request_id i step.a.id linked_p
                step.before.pair.linked in
            elim (action_cases i a at_i) [
              | inl (_, a_is) ↦
                  rw (a_is, p_is, step.action_status, step.approval_status)
                    (is_coherent_after step.verdict)
              | inr (other, _) ↦ ground (arith, i_is, other)
            ]
        | inr (other, found) ↦ elim (action_cases i a at_i) [
          | inr (_, found_a) ↦ c.together j i p a found found_a linked
          | inl (i_is, _) ↦
              let j_is =
                c.one_each j step.p.id p step.p i found step.before.pair.found_approval linked
                  (ap (links_to step.p.action_request_id) i_is ∙ step.before.pair.linked) in
              ground (arith, j_is, other)
        ]
      ]

  -- Every decision keeps the tables coherent.
  pub Step-IsCoherent : IsCoherent t → IsCoherent t'
  Step-IsCoherent c = record {
    keyed = Step-IsKeyed c.keyed;
    listed = λ k p at.
        let (p₀, found, _) = old_approval k p at in
        ap (contains_id k) step.keys ∙ c.listed k p₀ found;
    one_each = λ j k p q i at_j at_k linked_p linked_q.
        let (p₀, found_p, same_p) = old_approval j p at_j in
        let (q₀, found_q, same_q) = old_approval k q at_k in
        c.one_each j k p₀ q₀ i found_p found_q (ap (λ l. links_to l i) (sym same_p) ∙ linked_p)
          (ap (λ l. links_to l i) (sym same_q) ∙ linked_q);
    together = Step-together c;
  }
