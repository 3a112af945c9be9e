-- ===== src/Actions/Lifecycle/Handlers.antt =====
-- What `approve` calls and does not implement itself: the action handlers behind the protocol
-- `ActionHandler` of backend/app/action_engine/base.py, and the checks of action_dispatch.py on
-- what they return.
use queryops_ai.Prelude.{
  ℕ, Bool, true, not, ◌&&◌, ◌||◌, Option, none, some, List, [], ◌∷◌, all, contains_id,
  if◌then◌else◌,
}
use queryops_ai.Prelude.Uuid.{Uuid}
use queryops_ai.Prelude.Json.{Json}
use queryops_ai.Auth.Context.{UserAccessContext}
use queryops_ai.Actions.Rows.{ActionRequest, ActionType, Tables, same_type}

-- `ReclaimRevalidation | DisableRevalidation`: `kind` is the class, `skipped_records` are the
-- records as `as_dict` gives them, and `safe_flags` what `safe_action_revalidation_flags` makes.
pub record Revalidation : Type 0 where
  pub kind : ActionType
  pub executable_ids : List Uuid
  pub skipped_records : List Json
  pub crosses_scopes : Bool
  pub requires_policy_override : Bool
  pub safe_flags : Json

-- `none` is an exception. `execute` gives the ids that it executed.
pub record Handler (D : Type 0) : Type 0 where
  pub revalidate : D → ActionRequest → UserAccessContext → ℕ → Option Revalidation
  pub execute : D → ActionRequest → Uuid → Revalidation → ℕ → Option (List Uuid × D)

-- `validates` is `validate_action_snapshot`. `lock` waits for the rows of the dependencies, while
-- other transactions may commit. `meanwhile` is what they commit between the rollback after a
-- failure and the moment when the pair is locked again.
pub record Engine (D : Type 0) : Type 0 where
  pub validates : ActionRequest → Bool
  pub registry : ActionType → Option (Handler D)
  pub lock : D → Revalidation → Option D
  pub meanwhile : Tables D → Tables D

-- `require_action_revalidation`
unfoldable pub require_action_revalidation : ActionType → Option Revalidation → Option Revalidation
require_action_revalidation t none = none
require_action_revalidation t (some r) = if same_type t r.kind then some r else none

-- `len(ids) == len(set(ids))`
abbrev pub no_repeats : List Uuid → Bool
no_repeats [] = true
no_repeats (x ∷ xs) = not (contains_id x xs) && no_repeats xs

-- `require_stable_execution_set` passes.
unfoldable pub is_stable_execution_set : Revalidation → Revalidation → Bool
is_stable_execution_set initial final = not (
    not (no_repeats initial.executable_ids)
    || not (no_repeats final.executable_ids)
    || not (all (λ i. contains_id i initial.executable_ids) final.executable_ids))
