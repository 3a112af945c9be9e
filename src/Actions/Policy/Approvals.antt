-- ===== src/Actions/Policy/Approvals.antt =====
-- What an allowed request or approval guarantees.
use queryops_ai.Prelude.{
  String, Bool, true, false, not, ◌&&◌, ◌||◌, [], ◌==◌, str_eq, if◌then◌else◌, ◌≡◌, arith,
}
use queryops_ai.Prelude.Int.{is_negative}
use queryops_ai.Auth.Context.{UserAccessContext, has_permission, has_scope}
use queryops_ai.Actions.Policy.{
  ApprovalQuestion, request_permission, scoped_approval_permission, global_approval_permission,
  override_approval_permission, self_approval_permission, match_required_scope, is_empty,
  needs_global_approval, evaluate_action_request, evaluate_action_approval,
}

-- The subject covers a scope that is named in full.
abbrev pub covers : UserAccessContext → String → String → Bool
covers subject scope_type scope_key =
    (not (str_eq scope_type "") && not (str_eq scope_key ""))
    && (subject.has_global_scope || has_scope subject scope_type scope_key)

match_required_scope-covers :
    (subject : UserAccessContext) (t k : String)
    → is_empty (match_required_scope subject t k) ≡ not (covers subject t k)
unfolding match_required_scope
match_required_scope-covers subject t k = ground arith

-- The whole approval policy as one condition.
abbrev pub may_approve : UserAccessContext → ApprovalQuestion → Bool
may_approve subject q =
    not (is_negative q.record_count)
    && (not (subject.user_id == q.requester_app_user_id)
        || has_permission subject self_approval_permission)
    && (not q.requires_policy_override || has_permission subject override_approval_permission)
    && (if needs_global_approval q
        then has_permission subject global_approval_permission && subject.has_global_scope
        else has_permission subject scoped_approval_permission
          && covers subject q.scope_type q.scope_key)

module _ (subject : UserAccessContext) where
  -- An action may be requested exactly by a subject with the request permission who covers a scope
  -- that is named in full.
  pub evaluate_action_request-allowed :
      (scope_type scope_key : String)
      → (evaluate_action_request subject scope_type scope_key).allowed
        ≡ (has_permission subject request_permission && covers subject scope_type scope_key)
  unfolding evaluate_action_request
  evaluate_action_request-allowed t k = ground arith

  -- An approval is allowed exactly if the count is not negative, nobody approves an own request
  -- without the self-approval permission, a policy override has its permission, and the approver
  -- holds the global permission and scope (for actions across scopes, above the record limit or in
  -- the global scope) or else the scoped permission and the scope.
  pub evaluate_action_approval-allowed :
      (q : ApprovalQuestion) → (evaluate_action_approval subject q).allowed ≡ may_approve subject q
  unfolding evaluate_action_approval
  evaluate_action_approval-allowed q = ground arith

  allowed-self_approved :
      (q : ApprovalQuestion)
      → (evaluate_action_approval subject q).allowed ≡ true
      → (evaluate_action_approval subject q).self_approved
        ≡ (subject.user_id == q.requester_app_user_id)
  unfolding evaluate_action_approval
  allowed-self_approved q h = ground arith

  allowed-requires_admin :
      (q : ApprovalQuestion)
      → (evaluate_action_approval subject q).allowed ≡ true
      → (evaluate_action_approval subject q).requires_admin
        ≡ (needs_global_approval q || q.requires_policy_override)
  unfolding evaluate_action_approval
  allowed-requires_admin q h = ground arith

  allowed-matched_scopes :
      (q : ApprovalQuestion)
      → (evaluate_action_approval subject q).allowed ≡ true
      → is_empty (evaluate_action_approval subject q).matched_scopes ≡ false
  unfolding evaluate_action_approval
  allowed-matched_scopes q h = ground arith

  denied-self_approved :
      (q : ApprovalQuestion)
      → (evaluate_action_approval subject q).allowed ≡ false
      → (evaluate_action_approval subject q).self_approved ≡ false
  unfolding evaluate_action_approval
  denied-self_approved q h = ground arith

  denied-matched_scopes :
      (q : ApprovalQuestion)
      → (evaluate_action_approval subject q).allowed ≡ false
      → (evaluate_action_approval subject q).matched_scopes ≡ []
  unfolding evaluate_action_approval
  denied-matched_scopes q h = ground arith

  -- Whatever the order of the checks, an allowed decision says whether it is a self-approval and
  -- whether it is an administrator's, and a denied one matches no scope.
  pub evaluate_action_approval-flags :
      (q : ApprovalQuestion)
      → let d = evaluate_action_approval subject q in
        (d.allowed ≡ true
          → (d.self_approved ≡ (subject.user_id == q.requester_app_user_id))
            × (d.requires_admin ≡ (needs_global_approval q || q.requires_policy_override))
            × (is_empty d.matched_scopes ≡ false))
        × (d.allowed ≡ false → (d.self_approved ≡ false) × (d.matched_scopes ≡ []))
  evaluate_action_approval-flags q = (
    λ h. (allowed-self_approved q h, allowed-requires_admin q h, allowed-matched_scopes q h),
    λ h. (denied-self_approved q h, denied-matched_scopes q h),
  )
