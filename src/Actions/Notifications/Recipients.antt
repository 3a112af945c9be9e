-- ===== src/Actions/Notifications/Recipients.antt =====
-- Who hears of a request that waits for approval.
use queryops_ai.Prelude.{Bool, ◌&&◌, List, [], ◌∷◌, select, any, leb, ◌≡◌, refl, ◌∙◌, arith}
use queryops_ai.Prelude.Sorting.{any-sort_by}
use queryops_ai.Auth.Permissions.{is_active}
use queryops_ai.Actions.Policy.Approvals.{may_approve, evaluate_action_approval-allowed}
use queryops_ai.Actions.Rows.{ActionRequest, Member}
use queryops_ai.Actions.Notifications.{approval_question, approval_decision, eligible_approvers}

any-select :
    (keep test : Member → Bool) (ms : List Member)
    → any test (select keep ms) ≡ any (λ m. keep m && test m) ms
any-select keep test [] = refl
any-select keep test (m ∷ ms) = ground (arith, any-select keep test ms)

any-same :
    (f g : Member → Bool) → ((m : Member) → f m ≡ g m) → (ms : List Member) → any f ms ≡ any g ms
any-same f g h [] = refl
any-same f g h (m ∷ ms) = ground (arith, h m, any-same f g h ms)

-- Whatever a test looks for among the eligible approvers of a request, it finds exactly the users
-- that are active and that the whole approval policy lets approve this request.
pub any-eligible_approvers :
    (test : Member → Bool) (users : List Member) (a : ActionRequest)
    → any test (eligible_approvers users a)
      ≡ any
          (λ m. (is_active m.user.status && may_approve m.context (approval_question a)) && test m)
          users
unfolding eligible_approvers approval_decision
any-eligible_approvers test users a =
    let keep : Member → Bool =
      λ m. is_active m.user.status && (approval_decision a m.context).allowed in
    any-sort_by (λ (m : Member) (n : Member). leb m.user.id n.user.id) test (select keep users)
    ∙ any-select keep test users
    ∙ any-same (λ m. keep m && test m)
        (λ m. (is_active m.user.status && may_approve m.context (approval_question a)) && test m)
        (λ m. ground (arith, evaluate_action_approval-allowed m.context (approval_question a)))
        users
