-- ===== src/Actions/Lifecycle/Skips.antt =====
-- The records that an action skipped, and their counts: `_skip_counts` and the parts of
-- `_complete_success` of backend/app/action_engine/approval.py that read JSON columns.
use queryops_ai.Prelude.{
  ℕ, String, ◌+◌, Bool, false, Option, none, some, List, [], ◌∷◌, ◌++◌, map, str_eq, select, length,
  if◌then◌else◌,
}
use queryops_ai.Prelude.Int.{pos}
use queryops_ai.Prelude.Sorting.{sort_by, str_le}
use queryops_ai.Prelude.Json
use queryops_ai.Prelude.Json.{Json, Fields}

abbrev pub list_or_empty : Json → List Json
list_or_empty (Json.arr xs) = Json.to_list xs
list_or_empty _ = []

-- The records that the preview skipped.
unfoldable pub prior_records : Json → List Json
prior_records (Json.obj fs) = list_or_empty (Json.get fs "records")
prior_records _ = []

abbrev pub reason_record : String → Json
reason_record code = Json.obj (Json.field "reason_code" (Json.str code) Json.end)

-- `[{"reason_code": code} for code in codes if isinstance(code, str)]`
pub code_records : List Json → List Json
code_records [] = []
code_records (Json.str code ∷ codes) = reason_record code ∷ code_records codes
code_records (_ ∷ codes) = code_records codes

-- `d.get(key, [])`, iterated
abbrev pub iterate_field : Fields → String → Option (List Json)
iterate_field fs key = if Json.has fs key then Json.iterate (Json.get fs key) else some []

abbrev pub codes_of : Json → Option (List Json)
codes_of (Json.obj fs) = elim (iterate_field fs "override_reason_codes") [
  | none ↦ none
  | some codes ↦ some (code_records codes)
]
codes_of _ = some []

pub codes_of_all : List Json → Option (List Json)
codes_of_all [] = some []
codes_of_all (r ∷ rs) = elim (codes_of r) [
  | none ↦ none
  | some cs ↦ elim (codes_of_all rs) [ none ↦ none | some more ↦ some (cs ++ more) ]
]

unfoldable pub override_reason_records : Json → Option (List Json)
unfolding codes_of_all code_records
override_reason_records (Json.obj fs) = elim (iterate_field fs "override_required_records") [
  | none ↦ none
  | some records ↦ codes_of_all records
]
override_reason_records _ = none

-- `counts[code] = counts.get(code, 0) + 1`
pub bump : String → List (String × ℕ) → List (String × ℕ)
bump code [] = (code, 1) ∷ []
bump code ((c, n) ∷ counts) =
    let rest = bump code counts in if str_eq c code then (c, n + 1) ∷ counts else (c, n) ∷ rest

abbrev pub bump_if_text : Json → List (String × ℕ) → List (String × ℕ)
bump_if_text (Json.str code) counts = bump code counts
bump_if_text _ counts = counts

-- `none` where a record is no dict, which has no `get`
unfoldable pub count_reasons : List (String × ℕ) → List Json → Option (List (String × ℕ))
unfolding bump
count_reasons counts [] = some counts
count_reasons counts (Json.obj fs ∷ rs) =
    count_reasons (bump_if_text (Json.get fs "reason_code") counts) rs
count_reasons counts (_ ∷ rs) = none

abbrev pub count_record : String × ℕ → Json
count_record (code, n) =
    Json.obj
      (Json.field "reason_code" (Json.str code) (Json.field "count" (Json.num (pos n)) Json.end))

abbrev pub code_le : String × ℕ → String × ℕ → Bool
code_le (c, m) (d, n) = str_le c d

-- `_skip_counts`
unfoldable pub skip_counts : List Json → Option (List Json)
unfolding count_reasons
skip_counts records = elim (count_reasons [] records) [
  | none ↦ none
  | some counts ↦ some (map count_record (sort_by code_le counts))
]

abbrev pub has_code : String → Json → Bool
has_code code (Json.obj fs) = elim (Json.get fs "reason_code") [
  | Json.str c ↦ str_eq c code
  | _ ↦ false
]
has_code code _ = false

-- `if key in summary: summary[key] = sum(record.get("reason_code") == code for …)`
abbrev pub recount : String → String → List Json → Fields → Fields
recount key code records summary =
    if Json.has summary key
    then Json.set summary key (Json.num (pos (length (select (has_code code) records))))
    else summary

abbrev pub updated_summary : ℕ → List Json → Fields → Fields
updated_summary skipped_count records summary =
    recount "recent_login_skipped_count" "recent_successful_login" records (
      recount "service_accounts_excluded_count" "service_account_excluded" records
        (Json.set summary "skipped_count" (Json.num (pos skipped_count))))
