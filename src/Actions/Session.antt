-- ===== src/Actions/Session.antt =====
-- The database session of a request: conditional updates, what is flushed, commit and rollback.
use queryops_ai.Prelude.{
  ℕ, Bool, true, false, Option, none, some, List, [], ◌∷◌, ◌++◌, ◌==◌, if◌then◌else◌,
}
use queryops_ai.Prelude.Uuid.{Uuid}
use queryops_ai.Actions.Rows.{Tables, ActionRequest, ApprovalRequest, AuditLog, Notification}

-- `saved` is what other transactions can see. `commits` says which of the coming commits succeed;
-- after its end they all do.
pub record Session (D : Type 0) : Type 0 where
  pub saved : Tables D
  pub working : Tables D
  pub commits : List Bool

-- The table with the row at this primary key.
abbrev pub put {ℓ} : {A : Type ℓ} → (Uuid → Option A) → Uuid → A → Uuid → Option A
put rows k row j = if j == k then some row else rows j

-- `UPDATE … WHERE id = k AND test`, with the number of rows that it changed.
abbrev pub update_where {ℓ} :
    {A : Type ℓ} → (Uuid → Option A) → Uuid → (A → Bool) → (A → A) → (Uuid → Option A) × ℕ
update_where rows k test change = elim (rows k) [
  | none ↦ (rows, 0)
  | some row ↦ if test row then (put rows k (change row), 1) else (rows, 0)
]

module _ {D : Type 0} where
  abbrev pub start : Tables D → List Bool → Session D
  start t commits = record { saved = t; working = t; commits = commits }

  unfoldable pub rollback : Session D → Session D
  rollback s = record s { working = s.saved }

  abbrev pub commit_by : List Bool → Session D → Session D × Bool
  commit_by [] s = (record s { saved = s.working }, true)
  commit_by (true ∷ rest) s = (record s { saved = s.working; commits = rest }, true)
  commit_by (false ∷ rest) s = (record s { commits = rest }, false)

  -- `db.commit()`, and whether it succeeded. A failed one leaves the work for the rollback.
  unfoldable pub commit : Session D → Session D × Bool
  commit s = commit_by s.commits s

  -- Assignments to the attributes of a loaded row, and `db.add`.
  abbrev pub save_action : ActionRequest → Session D → Session D
  save_action a s = record s {
    working = record s.working { actions = put s.working.actions a.id a };
  }

  abbrev pub save_approval : ApprovalRequest → Session D → Session D
  save_approval p s = record s {
    working = record s.working { approvals = put s.working.approvals p.id p };
  }

  -- `db.add` of a new row.
  abbrev pub insert_approval : ApprovalRequest → Session D → Session D
  insert_approval p s = record s {
    working = record s.working {
      approvals = put s.working.approvals p.id p;
      approval_keys = p.id ∷ s.working.approval_keys;
    };
  }

  abbrev pub add_audits : List AuditLog → Session D → Session D
  add_audits logs s = record s { working = record s.working { audits = s.working.audits ++ logs } }

  abbrev pub add_notifications : List Notification → Session D → Session D
  add_notifications items s = record s {
    working = record s.working { notifications = s.working.notifications ++ items };
  }
