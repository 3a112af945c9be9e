-- ===== src/Actions/Requests/Refines/Waiting.antt =====
-- What an answer of `submit_request` tells, and the request that is shown.
use queryops_ai.Prelude.{ℕ, true, some, ◌≡◌, ap, ◌⊎◌, if-cases}
use queryops_ai.Prelude.Uuid.{Uuid}
use queryops_ai.Auth.Permissions.{AppUser}
use queryops_ai.Auth.Context.{UserAccessContext}
use queryops_ai.Actions.Rows.{ActionRequest, ApprovalRequest, ActionStatus, Tables, status_value}
use queryops_ai.Actions.Session.{Session}
use queryops_ai.Actions.Lifecycle.Base.{Outcome, returned, crashed, links_to}
use queryops_ai.Actions.Requests.{Surroundings, ActionReply, serialize}
use queryops_ai.Actions.Requests.Changes.{Acts}

-- The user's own request waits for a decision in these tables.
abbrev pub IsWaiting : {D : Type 0} → Uuid → Uuid → Tables D → Type 0
IsWaiting id user_id t =
    (a : ActionRequest) × (p : ApprovalRequest) × (t.actions id ≡ some a)
    × (a.requested_by_app_user_id ≡ user_id)
    × (a.status ≡ ActionStatus.pending_approval)
    × (t.approvals p.id ≡ some p)
    × (links_to p.action_request_id a.id ≡ true)

abbrev pub Waits : {D : Type 0} → Uuid → Uuid → Outcome ActionReply → Session D → Type 0
Waits id user_id (returned r) s =
    IsWaiting id user_id s.saved × (r.status ≡ status_value ActionStatus.pending_approval)
Waits id user_id _ s = Unit

-- What others can see is what they have made of it themselves, or one change further. An answer tells that
-- the request waits.
abbrev pub SubmitTold :
    {D : Type 0}
    → Surroundings D
    → Uuid
    → Uuid
    → Tables D
    → Outcome ActionReply × Session D
    → Type 0
SubmitTold {D} around id user_id t (o, s) =
    ((b : Tables D) × ((b ≡ t) ⊎ (b ≡ around.meanwhile t)) × Acts b s) × Waits id user_id o s

module _ {D : Type 0} (around : Surroundings D) (user : AppUser) (context : UserAccessContext)
    (now : ℕ) (t : Tables D) where
  -- Showing a request that waits.
  pub serialize-Told :
      (id : Uuid) (a : ActionRequest) (p : ApprovalRequest) (s : Session D) (b : Tables D)
      → (b ≡ t) ⊎ (b ≡ around.meanwhile t)
      → Acts b s
      → a.status ≡ ActionStatus.pending_approval
      → IsWaiting id user.id s.saved
      → SubmitTold around id user.id t (serialize around context a now p s)
  unfolding serialize
  serialize-Told id a p s b from acts status waits =
      if-cases (SubmitTold around id user.id t) (around.validates a) (returned _, s) (crashed, s)
        (λ valid. ((b, from, acts), (waits, ap status_value status)))
        (λ invalid. ((b, from, acts), tt))
