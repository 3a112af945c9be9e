-- ===== src/Actions/Audit.antt =====
-- backend/app/action_engine/audit.py
pub mod Safe
use queryops_ai.Prelude.{String, Bool, Option, none, some, List, [], ◌∷◌}
use queryops_ai.Prelude.Int.{pos}
use queryops_ai.Prelude.Uuid.{Uuid}
use queryops_ai.Prelude.Json
use queryops_ai.Prelude.Json.{Json, Items, Fields}
use queryops_ai.Auth.Permissions.{AppUser}
use queryops_ai.Actions.Rows.{ActionRequest, ApprovalRequest, AuditLog, type_value}

abbrev pub metadata_keys : List String
metadata_keys =
    "approval_request_id" ∷ "source_query_run_id" ∷ "notification_count" ∷ "cancellation_reason"
    ∷ "expiration_kind" ∷ "executed_count" ∷ "skipped_count" ∷ "override_used" ∷ "failure_category"
    ∷ "escalation_reason" ∷ []

-- A text, an int or a bool is kept; nothing else is.
abbrev pub keep : Fields → String → Json → Fields
keep safe key (Json.str s) = Json.set safe key (Json.str s)
keep safe key (Json.num n) = Json.set safe key (Json.num n)
keep safe key (Json.bool b) = Json.set safe key (Json.bool b)
keep safe key _ = safe

pub keep_all : List String → Fields → Fields → Fields
keep_all [] metadata safe = safe
keep_all (key ∷ keys) metadata safe = keep_all keys metadata (keep safe key (Json.get metadata key))

pub texts : Items → Items
texts Json.nil = Json.nil
texts (Json.cons (Json.str s) xs) = Json.cons (Json.str s) (texts xs)
texts (Json.cons _ xs) = texts xs

abbrev pub keep_flag_codes : Json → Fields → Fields
keep_flag_codes (Json.arr xs) safe = Json.set safe "policy_flag_codes" (Json.arr (texts xs))
keep_flag_codes _ safe = safe

-- What every row says of the action.
abbrev pub base_fields : ActionRequest → Fields
base_fields a = Json.field "action_type" (Json.str (type_value a.action_type)) (
    Json.field "record_count" (Json.num (pos a.record_count)) (
      Json.field "skipped_count" (Json.num (pos a.skipped_count))
        (Json.field "requires_admin" (Json.bool a.requires_admin) Json.end)))

unfoldable pub safe_audit_metadata : ActionRequest → Fields → Fields
unfolding keep_all texts
safe_audit_metadata a metadata =
    keep_flag_codes (Json.get metadata "policy_flag_codes")
      (keep_all metadata_keys metadata (base_fields a))

-- The keyword arguments that differ between the events.
pub record AuditEvent : Type 0 where
  pub event_type : String
  pub action : String
  pub status : String
  pub summary : String
  pub metadata : Fields
  pub before_state : Json
  pub after_state : Json
  pub severity : String
  pub self_approved : Option Bool

abbrev pub id_of : Option ApprovalRequest → Option Uuid
id_of none = none
id_of (some p) = some p.id

-- The log's own id is a fresh one and is left out.
unfoldable pub build_action_audit_log :
    AppUser → ActionRequest → Option ApprovalRequest → AuditEvent → AuditLog
build_action_audit_log actor a p e = record {
  actor_user_id = actor.id;
  action_request_id = a.id;
  approval_request_id = id_of p;
  department_id = a.department_id;
  scope_id = a.scope_id;
  scope_type = a.scope_type;
  scope_key = a.scope_key;
  severity = e.severity;
  event_type = e.event_type;
  action = e.action;
  status = e.status;
  entity_type = "action_request";
  entity_id = a.id;
  summary = e.summary;
  audit_metadata = Json.obj (safe_audit_metadata a e.metadata);
  before_state_json = e.before_state;
  after_state_json = e.after_state;
  self_approved = e.self_approved;
}
