-- ===== src/Actions/Lifecycle/Refines/Attempting.antt =====
-- The `try` block of `approve`, with the moments at which other transactions come in.
use queryops_ai.Prelude.{
  ℕ, String, Bool, true, false, not, Option, none, some, List, if◌then◌else◌, ◌≡◌, refl,
}
use queryops_ai.Auth.Permissions.{AppUser}
use queryops_ai.Auth.Context.{UserAccessContext}
use queryops_ai.Actions.Rows.{ActionRequest, ApprovalRequest, Tables}
use queryops_ai.Actions.Session.{Session, start}
use queryops_ai.Actions.Lifecycle.Handlers.{
  Revalidation, Handler, Engine, require_action_revalidation, is_stable_execution_set,
}
use queryops_ai.Actions.Lifecycle.Base.{Outcome}
use queryops_ai.Actions.Lifecycle.Approve.{ApproveReply, Attempt, broke, or_broke, attempt, decide}
use queryops_ai.Actions.Lifecycle.Refines.Answers.{Told, Keeps}
use queryops_ai.Actions.Lifecycle.Refines.Executing.{decide-Keeps}
use queryops_ai.Actions.Lifecycle.Steps.{IsKeyed, IsPendingPair}

-- What other transactions can have made of the tables while `approve` waited: the rows that a
-- handler works on, while it waited for their locks, and anything, after it gave up its own locks.
pub data Shifts {D : Type 0} (engine : Engine D) (t : Tables D) : Tables D → Type 0 where
  stays : Shifts engine t t
  waits :
      (r : Revalidation) (d : D)
      → engine.lock t.domain r ≡ some d
      → Shifts engine t (record t { domain = d })
  yields : (b : Tables D) → Shifts engine t b → Shifts engine t (engine.meanwhile b)

-- The answer of `approve` is what others can see, on tables that they may have shifted.
abbrev pub Settles : {D : Type 0} → Engine D → Tables D → Outcome ApproveReply × Session D → Type 0
Settles {D} engine t (outcome, s) = (b : Tables D) × Shifts engine t b × Told b outcome s

-- What the attempt comes to, on tables that others may have shifted.
abbrev pub Ends : {D : Type 0} → Engine D → Tables D → Attempt D → Type 0
Ends {D} engine t r = (b : Tables D) × IsKeyed b × Shifts engine t b × Keeps b r

or_broke-Ends :
    {D X : Type 0} (engine : Engine D) (t : Tables D) (x : Option X) (category : String)
    (s : Session D) (next : X → Attempt D)
    → Ends engine t (broke category s)
    → ((v : X) → x ≡ some v → Ends engine t (next v))
    → Ends engine t (or_broke x category s next)
or_broke-Ends engine t none category s next here h = here
or_broke-Ends engine t (some v) category s next here h = h v refl

Ends-if :
    {D : Type 0} (engine : Engine D) (t : Tables D) (test : Bool) (x y : Attempt D)
    → Ends engine t x
    → Ends engine t y
    → Ends engine t (if test then x else y)
Ends-if engine t true x y hx hy = hx
Ends-if engine t false x y hx hy = hy

-- Approvals and actions are keyed whatever the domain is.
IsKeyed-domain : {D : Type 0} (t : Tables D) (d : D) → IsKeyed t → IsKeyed (record t { domain = d })
IsKeyed-domain t d keyed = record { actions = keyed.actions; approvals = keyed.approvals }

pub IsPendingPair-domain :
    {D : Type 0} (t : Tables D) (d : D) (a : ActionRequest) (p : ApprovalRequest)
    → IsPendingPair t a p
    → IsPendingPair (record t { domain = d }) a p
IsPendingPair-domain t d a p before = record {
  pair = record {
    found_action = before.pair.found_action;
    found_approval = before.pair.found_approval;
    linked = before.pair.linked;
  };
  action_pending = before.action_pending;
  approval_pending = before.approval_pending;
}

module _ {D : Type 0} (iso : ℕ → String) (engine : Engine D) (user : AppUser)
    (context : UserAccessContext) (reason : String) (now : ℕ) (t : Tables D) (keyed : IsKeyed t)
    (commits : List Bool) where
  -- What `attempt` does once the rows that the handler works on are locked.
  abbrev decide_if_stable :
      ActionRequest
      → ApprovalRequest
      → Handler D
      → Revalidation
      → Session D
      → Revalidation
      → Attempt D
  decide_if_stable a p handler initial locked r =
      if not (is_stable_execution_set initial r)
      then broke "validation_failed" locked
      else decide iso engine user context reason now handler a p r locked

  abbrev after_lock : ActionRequest → ApprovalRequest → Handler D → Revalidation → D → Attempt D
  after_lock a p handler initial domain =
      let locked = start (record t { domain = domain }) commits in
      or_broke (require_action_revalidation a.action_type (handler.revalidate domain a context now))
        "validation_failed" locked (decide_if_stable a p handler initial locked)

  after_lock-Ends :
      (a : ActionRequest) (p : ApprovalRequest)
      → IsPendingPair t a p
      → (handler : Handler D) (initial : Revalidation) (domain : D)
      → engine.lock t.domain initial ≡ some domain
      → Ends engine t (after_lock a p handler initial domain)
  after_lock-Ends a p before handler initial domain waited =
      let b = record t { domain = domain } in
      let there = waits initial domain waited in
      let keyed' = IsKeyed-domain t domain keyed in
      let locked = start b commits in
      or_broke-Ends engine t
        (require_action_revalidation a.action_type (handler.revalidate domain a context now))
        "validation_failed" locked (decide_if_stable a p handler initial locked)
        (b, keyed', there, refl)
        (λ r e.
          Ends-if engine t (not (is_stable_execution_set initial r))
            (broke "validation_failed" locked)
            (decide iso engine user context reason now handler a p r locked)
            (b, keyed', there, refl)
            (
              b,
              keyed',
              there,
              decide-Keeps iso engine user context reason now a p b
                  (IsPendingPair-domain t domain a p before) commits handler r,
            ))

  pub attempt-Ends :
      (a : ActionRequest) (p : ApprovalRequest)
      → IsPendingPair t a p
      → Ends engine t (attempt iso engine user context reason now a p (start t commits))
  unfolding attempt
  attempt-Ends a p before =
      let s : Session D = start t commits in
      let here : Ends engine t (broke "validation_failed" s) = (t, keyed, stays, refl) in
      let lock_and_decide : Handler D → Revalidation → Attempt D = λ handler initial.
        or_broke (engine.lock t.domain initial) "validation_failed" s
          (after_lock a p handler initial) in
      let revalidate_first : Handler D → Attempt D = λ handler.
        or_broke
          (require_action_revalidation a.action_type (handler.revalidate t.domain a context now))
          "validation_failed" s (lock_and_decide handler) in
      Ends-if engine t (not (engine.validates a)) (broke "validation_failed" s)
        (or_broke (engine.registry a.action_type) "validation_failed" s revalidate_first) here
        (or_broke-Ends engine t (engine.registry a.action_type) "validation_failed" s
          revalidate_first here
          (λ handler e.
            or_broke-Ends engine t
              (require_action_revalidation a.action_type
                (handler.revalidate t.domain a context now))
              "validation_failed" s (lock_and_decide handler) here
              (λ initial e'.
                or_broke-Ends engine t (engine.lock t.domain initial) "validation_failed" s
                  (after_lock a p handler initial) here
                  (after_lock-Ends a p before handler initial))))
