-- ===== src/Actions/Lifecycle/Refines/Running.antt =====
-- When `approve` (action_engine/approval.py) runs a handler, and what its result depends on.
use queryops_ai.Prelude.{
  ℕ, String, Bool, true, false, not, ◌==◌, Option, none, some, List, [], ◌∷◌, all, contains_id,
  if◌then◌else◌, ◌≡◌, refl, sym, ap, ◌∙◌, inl, inr, ==_iff, arith, Bool-cases, Option-cases,
}
use queryops_ai.Prelude.Uuid.{Uuid}
use queryops_ai.Auth.Permissions.{AppUser}
use queryops_ai.Auth.Context.{UserAccessContext}
use queryops_ai.Actions.Policy.{ActionPolicyDecision, evaluate_action_approval}
use queryops_ai.Actions.Rows.{ActionRequest, ActionType, ApprovalRequest, Tables, same_type}
use queryops_ai.Actions.Notifications.{approval_decision}
use queryops_ai.Actions.Session.{Session, start}
use queryops_ai.Actions.Lifecycle.Base.{
  locked_pair, is_expired, is_pending_expired, require_pending,
}
use queryops_ai.Actions.Lifecycle.Handlers.{
  Revalidation, Handler, Engine, require_action_revalidation, no_repeats, is_stable_execution_set,
}
use queryops_ai.Actions.Lifecycle.Approve.{
  Attempt, settled, broke, or_broke, current_question, denied, persist_escalation, after_execution,
  execute_claimed, decide, attempt, recover, approve_pair, approve,
}
use queryops_ai.Actions.Lifecycle.Refines.Locks.{both_pending, require_pending-none}

-- No record stands twice.
abbrev pub AreDistinct : List Uuid → Type 0
AreDistinct [] = Unit
AreDistinct (x ∷ xs) = (contains_id x xs ≡ false) × AreDistinct xs

no_repeats-AreDistinct : (xs : List Uuid) → no_repeats xs ≡ true → AreDistinct xs
no_repeats-AreDistinct [] h = tt
no_repeats-AreDistinct (x ∷ xs) h =
    (ground (arith, h), no_repeats-AreDistinct xs (ground (arith, h)))

all-contains :
    (xs ys : List Uuid)
    → all (λ i. contains_id i ys) xs ≡ true
    → (i : Uuid) → contains_id i xs ≡ true
    → contains_id i ys ≡ true
all-contains [] ys h i there = ground arith
all-contains (x ∷ xs) ys h i there = elim (Bool-cases (x == i)) [
  | inl same ↦ ap (λ j. contains_id j ys) (sym ((==_iff x i).0 same)) ∙ ground arith
  | inr other ↦ all-contains xs ys (ground arith) i (ground (arith, other))
]

-- What passes the check names no record twice, and only records of the first revalidation.
stable-AreDistinct :
    (initial final : Revalidation)
    → is_stable_execution_set initial final ≡ true
    → AreDistinct final.executable_ids
      × ((i : Uuid)
          → contains_id i final.executable_ids ≡ true
          → contains_id i initial.executable_ids ≡ true)
unfolding is_stable_execution_set
stable-AreDistinct initial final h = (
  no_repeats-AreDistinct final.executable_ids (ground arith),
  all-contains final.executable_ids initial.executable_ids (ground arith),
)

required :
    (k : ActionType) (found : Option Revalidation) (r : Revalidation)
    → require_action_revalidation k found ≡ some r
    → (found ≡ some r) × (same_type k r.kind ≡ true)
unfolding require_action_revalidation
required k none r h = cc
required k (some x) r h = (ground (arith, h), ground (arith, h))

abbrev pub Execute : Type 0 → Type 0
Execute D = D → ActionRequest → Uuid → Revalidation → ℕ → Option (List Uuid × D)

-- The handlers with other executions.
abbrev pub with_execute : {D : Type 0} → Execute D → Option (Handler D) → Option (Handler D)
with_execute run none = none
with_execute run (some handler) = some (record handler { execute = run })

abbrev pub with_executes : {D : Type 0} → Engine D → (ActionType → Execute D) → Engine D
with_executes engine run = record engine {
  registry = λ k. with_execute (run k) (engine.registry k);
}

if-same :
    {A : Type 0} {x x' y y' : A} (b : Bool)
    → (b ≡ true → x ≡ x')
    → (b ≡ false → y ≡ y')
    → (if b then x else y) ≡ (if b then x' else y')
if-same true hx hy = hx refl
if-same false hx hy = hy refl

or_broke-same :
    {D X : Type 0} (x : Option X) (category : String) (s : Session D) (f g : X → Attempt D)
    → ((v : X) → x ≡ some v → f v ≡ g v)
    → or_broke x category s f ≡ or_broke x category s g
or_broke-same none category s f g h = refl
or_broke-same (some v) category s f g h = h v refl

handlers-same :
    {D : Type 0} (found : Option (Handler D)) (run : Execute D) (category : String) (s : Session D)
    (f g : Handler D → Attempt D)
    → ((handler : Handler D)
        → found ≡ some handler
        → f handler ≡ g (record handler { execute = run }))
    → or_broke found category s f ≡ or_broke (with_execute run found) category s g
handlers-same none run category s f g h = refl
handlers-same (some handler) run category s f g h = h handler refl

module _ {D : Type 0} (iso : ℕ → String) (engine : Engine D) (user : AppUser)
    (context : UserAccessContext) (reason : String) (now : ℕ) (t : Tables D) (id : Uuid) where
  -- A handler may be run on the tables: for the pair of the approval, which is pending and in time, by
  -- this user, whom the policy allows to decide the request as it is stored and as it has been
  -- revalidated, with the second of two revalidations, of the action's own kind, which names no record
  -- twice and none that the first one, before the locking, did not name.
  pub record MayRun (handler : Handler D) (d : D) (a : ActionRequest) (u : Uuid) (r : Revalidation)
      (n : ℕ) : Type 0 where
    pub p : ApprovalRequest
    pub locked : locked_pair t id ≡ some (a, p)
    pub pending : both_pending a p ≡ true
    pub on_time : is_expired a p now ≡ false
    pub allowed : (approval_decision a context).allowed ≡ true
    pub valid : engine.validates a ≡ true
    pub initial : Revalidation
    pub first : handler.revalidate t.domain a context now ≡ some initial
    pub dependencies : engine.lock t.domain initial ≡ some d
    pub second : handler.revalidate d a context now ≡ some r
    pub kind : same_type a.action_type r.kind ≡ true
    pub distinct : AreDistinct r.executable_ids
    pub within :
        (i : Uuid)
        → contains_id i r.executable_ids ≡ true
        → contains_id i initial.executable_ids ≡ true
    pub still_allowed :
        (evaluate_action_approval context
          (current_question iso engine user context reason now a r)).allowed
        ≡ true
    pub who : u ≡ user.id
    pub when : n ≡ now

  -- The other executions agree with the handlers' own wherever a handler may be run.
  abbrev pub Agrees : (ActionType → Execute D) → Type 0
  Agrees run =
      (k : ActionType) (handler : Handler D)
      → engine.registry k ≡ some handler
      → (d : D) (a : ActionRequest) (u : Uuid) (r : Revalidation) (n : ℕ) → MayRun handler d a u r n
      → handler.execute d a u r n ≡ run k d a u r n

  module _ (run : ActionType → Execute D) where
    abbrev other : Engine D
    other = with_executes engine run

    execute_claimed-same :
        (handler : Handler D) (k : ActionType) (a : ActionRequest) (p : ApprovalRequest)
        (r : Revalidation) (decision : ActionPolicyDecision) (s : Session D)
        → handler.execute s.working.domain a user.id r now ≡ run k s.working.domain a user.id r now
        → execute_claimed iso engine user context reason now handler a p r decision s
          ≡ execute_claimed iso other user context reason now
              (record handler { execute = run k })
              a
              p
              r
              decision
              s
    unfolding execute_claimed after_execution
    execute_claimed-same handler k a p r decision s e = rw e refl

    decide-same :
        (handler : Handler D) (k : ActionType) (a : ActionRequest) (p : ApprovalRequest)
        (r : Revalidation) (s : Session D)
        → ((evaluate_action_approval context
                (current_question iso engine user context reason now a r)).allowed
              ≡ true
            → handler.execute s.working.domain a user.id r now
              ≡ run k s.working.domain a user.id r now)
        → decide iso engine user context reason now handler a p r s
          ≡ decide iso other user context reason now (record handler { execute = run k }) a p r s
    unfolding decide denied persist_escalation
    decide-same handler k a p r s agree =
        let decision =
          evaluate_action_approval context
            (current_question iso engine user context reason now a r) in
        if-same (not decision.allowed) (λ denies. refl)
          (λ allows.
            execute_claimed-same handler k a p r decision s (agree (ground (arith, allows))))

    attempt-same :
        (a : ActionRequest) (p : ApprovalRequest) (commits : List Bool)
        → locked_pair t id ≡ some (a, p)
        → both_pending a p ≡ true
        → is_expired a p now ≡ false
        → (approval_decision a context).allowed ≡ true
        → Agrees run
        → attempt iso engine user context reason now a p (start t commits)
          ≡ attempt iso other user context reason now a p (start t commits)
    unfolding attempt
    attempt-same a p commits locked pending on_time allowed agrees =
        let k = a.action_type in
        if-same (not (engine.validates a)) (λ invalid. refl)
          (λ valid.
            handlers-same (engine.registry k) (run k) "validation_failed" (start t commits) _ _
              (λ handler registered.
                or_broke-same
                  (require_action_revalidation k (handler.revalidate t.domain a context now)) _ _ _
                  _
                  (λ initial first. or_broke-same (engine.lock t.domain initial) _ _ _ _ (λ d locks.
                    or_broke-same
                      (require_action_revalidation k (handler.revalidate d a context now)) _ _ _ _
                      (λ r second.
                        if-same (not (is_stable_execution_set initial r)) (λ unstable. refl)
                          (λ stable. decide-same handler k a p r _ (λ still.
                            let (found, _) =
                              required k (handler.revalidate t.domain a context now) initial
                                first in
                            let (found', kind) =
                              required k (handler.revalidate d a context now) r second in
                            let (distinct, within) =
                              stable-AreDistinct initial r (ground (arith, stable)) in
                            agrees k handler registered d a user.id r now (record {
                              p = p;
                              locked = locked;
                              pending = pending;
                              on_time = on_time;
                              allowed = allowed;
                              valid = ground (arith, valid);
                              initial = initial;
                              first = found;
                              dependencies = locks;
                              second = found';
                              kind = kind;
                              distinct = distinct;
                              within = within;
                              still_allowed = still;
                              who = refl;
                              when = refl;
                            }))))))))

    unchanged :
        (a : ActionRequest) (p : ApprovalRequest) (y : Attempt D)
        → recover iso engine user context reason now a p y
          ≡ recover iso other user context reason now a p y
    unfolding recover
    unchanged a p (settled outcome s) = refl
    unchanged a p (broke category s) = refl

    recover-same :
        (a : ActionRequest) (p : ApprovalRequest) {x y : Attempt D}
        → x ≡ y
        → recover iso engine user context reason now a p x
          ≡ recover iso other user context reason now a p y
    unfolding recover
    recover-same a p {x} {y} e =
        ap (recover iso engine user context reason now a p) e ∙ unchanged a p y

    approve_pair-same :
        (a : ActionRequest) (p : ApprovalRequest) (commits : List Bool)
        → locked_pair t id ≡ some (a, p)
        → Agrees run
        → approve_pair iso engine user context reason now a p (start t commits)
          ≡ approve_pair iso other user context reason now a p (start t commits)
    unfolding approve_pair
    approve_pair-same a p commits locked agrees =
        if-same (not (approval_decision a context).allowed) (λ denies. refl)
          (λ allows.
            if-same (is_pending_expired a p now) (λ late. refl)
              (λ _. elim (Option-cases (require_pending a p now)) [
                | inr (e, refused) ↦ rw refused refl
                | inl passes ↦
                    let (pending, on_time) = require_pending-none a p now passes in
                    rw passes (
                      recover-same a p (
                        attempt-same a p commits locked pending on_time (ground (arith, allows))
                          agrees))
              ]))

    -- What `approve` answers and leaves depends on no run of a handler but these: for the pair of the
    -- given approval, which is pending and in time, by this user, whom the policy allows to decide the
    -- request both as it is stored and as it has been revalidated, on what the locking of the
    -- dependencies left, and with the second of two revalidations, which is of the action's kind and
    -- names no record twice and no record that the first one, before the locking, did not name.
    -- Handlers that agree on these runs, whatever they do on all others, give the same result.
    pub approve-Agrees :
        (commits : List Bool)
        → Agrees run
        → approve iso engine user context reason now id (start t commits)
          ≡ approve iso (with_executes engine run) user context reason now id (start t commits)
    unfolding approve
    approve-Agrees commits agrees = elim (Option-cases (locked_pair t id)) [
      | inl absent ↦ rw (absent, approve) refl
      | inr ((a, p), locked) ↦ rw (locked, approve) (approve_pair-same a p commits locked agrees)
    ]
