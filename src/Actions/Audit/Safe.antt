-- ===== src/Actions/Audit/Safe.antt =====
-- What an audit row holds of an event's metadata, key by key.
use queryops_ai.Prelude.{
  String, Bool, true, false, ◌&&◌, ◌||◌, Option, none, some, List, [], ◌∷◌, str_eq, contains,
  select, if◌then◌else◌, ◌≡◌, refl, ap, sym, subst, ◌∙◌, arith, eq_iff, Bool-cases, inl, inr,
}
use queryops_ai.Prelude.Int.{pos}
use queryops_ai.Prelude.Json
use queryops_ai.Prelude.Json.{Json, Fields, Items}
use queryops_ai.Actions.Rows.{ActionRequest, type_value}
use queryops_ai.Actions.Audit.{
  metadata_keys, keep, keep_all, keep_flag_codes, texts, base_fields, safe_audit_metadata,
}

-- The value of a key, if it is there.
abbrev pub entry : Fields → String → Option Json
entry fs k = if Json.has fs k then some (Json.get fs k) else none

entry-set :
    (fs : Fields) (k j : String) (v : Json)
    → entry (Json.set fs k v) j ≡ (if str_eq k j then some v else entry fs j)
unfolding Json.has Json.get Json.set
entry-set Json.end k j v = ground arith
entry-set (Json.field i w fs) k j v = elim (Bool-cases (str_eq i k)) [
  | inl same ↦
      let e : str_eq i j ≡ str_eq k j = ap (λ x. str_eq x j) ((eq_iff i k).0 same) in
      rw same (ground (arith, e))
  | inr other ↦
      rw other (ground (arith, entry-set fs k j v, other, eq_iff i j, eq_iff k j, eq_iff i k))
]

abbrev pub is_text : Json → Bool
is_text (Json.str s) = true
is_text _ = false

-- A text, an int or a bool.
abbrev pub is_scalar : Json → Bool
is_scalar (Json.str s) = true
is_scalar (Json.num n) = true
is_scalar (Json.bool b) = true
is_scalar _ = false

-- The keys under which an audit row may hold a value of the metadata.
abbrev pub loggable_keys : List String
loggable_keys =
    "approval_request_id" ∷ "source_query_run_id" ∷ "notification_count" ∷ "cancellation_reason"
    ∷ "expiration_kind" ∷ "executed_count" ∷ "skipped_count" ∷ "override_used" ∷ "failure_category"
    ∷ "escalation_reason" ∷ []

-- What the row holds of the action itself.
abbrev pub of_action : ActionRequest → String → Option Json
of_action a j =
    if str_eq "action_type" j
    then some (Json.str (type_value a.action_type))
    else if str_eq "record_count" j
    then some (Json.num (pos a.record_count))
    else if str_eq "skipped_count" j
    then some (Json.num (pos a.skipped_count))
    else if str_eq "requires_admin" j
    then some (Json.bool a.requires_admin)
    else none

-- The texts of a list of codes.
abbrev pub logged_codes : Json → Option Json
logged_codes (Json.arr xs) = some (Json.arr (Json.of_list (select is_text (Json.to_list xs))))
logged_codes _ = none

-- What the row should hold under a key.
abbrev pub logged : ActionRequest → Fields → String → Option Json
logged a metadata j =
    if str_eq "policy_flag_codes" j
    then logged_codes (Json.get metadata j)
    else if contains j loggable_keys && is_scalar (Json.get metadata j)
    then some (Json.get metadata j)
    else of_action a j

keep-entry :
    (safe : Fields) (key j : String) (v : Json)
    → entry (keep safe key v) j ≡ (if str_eq key j && is_scalar v then some v else entry safe j)
keep-entry safe key j (Json.str s) = entry-set safe key j (Json.str s) ∙ ground arith
keep-entry safe key j (Json.num n) = entry-set safe key j (Json.num n) ∙ ground arith
keep-entry safe key j (Json.bool b) = entry-set safe key j (Json.bool b) ∙ ground arith
keep-entry safe key j Json.null = ground arith
keep-entry safe key j (Json.arr xs) = ground arith
keep-entry safe key j (Json.obj fs) = ground arith

keep-value :
    (metadata safe : Fields) (key j : String)
    → entry (keep safe key (Json.get metadata key)) j ≡ (
        if str_eq j key && is_scalar (Json.get metadata j)
        then some (Json.get metadata j)
        else entry safe j)
keep-value metadata safe key j = keep-entry safe key j (Json.get metadata key) ∙ same_value
  where
    same_value :
        (if str_eq key j && is_scalar (Json.get metadata key)
          then some (Json.get metadata key)
          else entry safe j)
        ≡ (if str_eq j key && is_scalar (Json.get metadata j)
            then some (Json.get metadata j)
            else entry safe j)
    same_value = elim (Bool-cases (str_eq key j)) [
      | inl e ↦
          let same : key ≡ j = (eq_iff key j).0 e in
          let back : str_eq j key ≡ true = (eq_iff j key).1 (sym same) in
          rw (e, back)
            (ap
              (λ k.
                if is_scalar (Json.get metadata k)
                then some (Json.get metadata k)
                else entry safe j)
              same)
      | inr other ↦ ground (arith, other, eq_iff key j, eq_iff j key)
    ]

either_kept :
    (b c s : Bool) (x before : Option Json)
    → (if b && s then x else if c && s then x else before) ≡ (if (c || b) && s then x else before)
either_kept b c s x before = ground arith

keep_all-entry :
    (keys : List String) (metadata safe : Fields) (j : String)
    → entry (keep_all keys metadata safe) j ≡ (
        if contains j keys && is_scalar (Json.get metadata j)
        then some (Json.get metadata j)
        else entry safe j)
unfolding keep_all
keep_all-entry [] metadata safe j = refl
keep_all-entry (key ∷ keys) metadata safe j =
    keep_all-entry keys metadata (keep safe key (Json.get metadata key)) j
    ∙ ap
        (λ t.
          if contains j keys && is_scalar (Json.get metadata j)
          then some (Json.get metadata j)
          else t)
        (keep-value metadata safe key j)
    ∙ either_kept (contains j keys) (str_eq j key) (is_scalar (Json.get metadata j))
        (some (Json.get metadata j)) (entry safe j)

texts-select : (xs : Items) → texts xs ≡ Json.of_list (select is_text (Json.to_list xs))
unfolding texts Json.of_list Json.to_list
texts-select Json.nil = refl
texts-select (Json.cons (Json.str s) xs) = ap (Json.cons (Json.str s)) (texts-select xs)
texts-select (Json.cons Json.null xs) = texts-select xs
texts-select (Json.cons (Json.bool b) xs) = texts-select xs
texts-select (Json.cons (Json.num n) xs) = texts-select xs
texts-select (Json.cons (Json.arr ys) xs) = texts-select xs
texts-select (Json.cons (Json.obj fs) xs) = texts-select xs

-- The codes, or what was there where there are none.
abbrev or_before : Option Json → Option Json → Option Json
or_before none before = before
or_before (some v) before = some v

or_nothing : (found : Option Json) → or_before found none ≡ found
or_nothing none = refl
or_nothing (some v) = refl

keep_flag_codes-entry :
    (v : Json) (safe : Fields) (j : String)
    → entry (keep_flag_codes v safe) j ≡ (
        if str_eq "policy_flag_codes" j
        then or_before (logged_codes v) (entry safe j)
        else entry safe j)
keep_flag_codes-entry (Json.arr xs) safe j =
    entry-set safe "policy_flag_codes" j (Json.arr (texts xs))
    ∙ ap (λ t. if str_eq "policy_flag_codes" j then some (Json.arr t) else entry safe j)
        (texts-select xs)
keep_flag_codes-entry Json.null safe j = ground arith
keep_flag_codes-entry (Json.bool b) safe j = ground arith
keep_flag_codes-entry (Json.num n) safe j = ground arith
keep_flag_codes-entry (Json.str s) safe j = ground arith
keep_flag_codes-entry (Json.obj fs) safe j = ground arith

base_fields-entry : (a : ActionRequest) (j : String) → entry (base_fields a) j ≡ of_action a j
unfolding Json.has Json.get
base_fields-entry a j = ground arith

-- An audit row holds exactly this of an event's metadata, whatever the metadata is: under
-- `policy_flag_codes` the texts of a list of codes, in their order, and nothing where there is no list;
-- under ten other keys the metadata's own value for the key, where it is a text, an int or a bool; and
-- otherwise the type, the two counts and the admin flag of the action under their four keys. No other key
-- is there, and no other value.
pub safe_audit_metadata_exact :
    (a : ActionRequest) (metadata : Fields) (j : String)
    → entry (safe_audit_metadata a metadata) j ≡ logged a metadata j
unfolding safe_audit_metadata
safe_audit_metadata_exact a metadata j =
    let kept = keep_all metadata_keys metadata (base_fields a) in
    let value = Json.get metadata "policy_flag_codes" in
    let all_kept =
      keep_all-entry metadata_keys metadata (base_fields a) j
      ∙ ap
          (λ t.
            if contains j loggable_keys && is_scalar (Json.get metadata j)
            then some (Json.get metadata j)
            else t)
          (base_fields-entry a j) in
    keep_flag_codes-entry value kept j ∙ elim (Bool-cases (str_eq "policy_flag_codes" j)) [
      | inl e ↦
          let same : "policy_flag_codes" ≡ j = (eq_iff "policy_flag_codes" j).0 e in
          let absent : entry kept j ≡ none =
            all_kept
            ∙ subst
                (λ (k : String).
                  (if contains k loggable_keys && is_scalar (Json.get metadata k)
                    then some (Json.get metadata k)
                    else of_action a k)
                  ≡ none)
                same refl in
          rw e (
            ap (or_before (logged_codes value)) absent
            ∙ or_nothing (logged_codes value)
            ∙ ap (λ (k : String). logged_codes (Json.get metadata k)) same)
      | inr other ↦ rw other all_kept
    ]
