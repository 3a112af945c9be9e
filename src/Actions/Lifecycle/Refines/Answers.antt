-- ===== src/Actions/Lifecycle/Refines/Answers.antt =====
-- What an answer of `approve` says of the tables.
use queryops_ai.Prelude.{String, Bool, true, false, Option, none, some, if◌then◌else◌, ◌≡◌, refl}
use queryops_ai.Actions.Rows.{status_value, Tables}
use queryops_ai.Actions.Session.{Session}
use queryops_ai.Actions.Lifecycle.Base.{Outcome, returned, crashed, raised}
use queryops_ai.Actions.Lifecycle.Approve.{Attempt, settled, broke, or_broke, ApproveReply}
use queryops_ai.Actions.Lifecycle.Steps.{action_after, Step, Moves}

-- What others can see is what the answer says: a reply names the status that the one decision gave
-- the action; without a reply there is at most one decision.
abbrev pub Told : {D : Type 0} → Tables D → Outcome ApproveReply → Session D → Type 0
Told b (returned r) s =
    (after : Tables _) × (step : Step b after) × (s.saved ≡ after)
    × (r.status ≡ status_value (action_after step.verdict))
Told b (raised e) s = Moves b s
Told b crashed s = Moves b s

-- The attempt settles with such an answer, or breaks and leaves what others can see.
abbrev pub Keeps : {D : Type 0} → Tables D → Attempt D → Type 0
Keeps b (settled outcome s) = Told b outcome s
Keeps b (broke _ s) = s.saved ≡ b

pub or_broke-Keeps :
    {D X : Type 0} (b : Tables D) (x : Option X) (category : String) (s : Session D)
    (next : X → Attempt D)
    → s.saved ≡ b
    → ((v : X) → x ≡ some v → Keeps b (next v))
    → Keeps b (or_broke x category s next)
or_broke-Keeps b none category s next here h = here
or_broke-Keeps b (some v) category s next here h = h v refl

pub Keeps-if :
    {D : Type 0} (b : Tables D) (test : Bool) (x y : Attempt D)
    → (test ≡ true → Keeps b x)
    → (test ≡ false → Keeps b y)
    → Keeps b (if test then x else y)
Keeps-if b true x y hx hy = hx refl
Keeps-if b false x y hx hy = hy refl
