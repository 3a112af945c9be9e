-- ===== src/Exports/Csv/Reader.antt =====
-- A reader of comma-separated text, written without the writer: RFC 4180, with rows that end with a
-- line feed. It is what the export is measured by.
use queryops_ai.Prelude.{ℕ, Option, none, some, List, [], ◌∷◌, ◌==◌, if◌then◌else◌}
use queryops_ai.Prelude.Texts.{Text}

pub data Mode : Type 0 where
  row_start field_start plain quoted closing : Mode

-- What a character does to what is read after it: it ends an empty row, ends a row, ends a field, is a part
-- of the field, has no meaning of its own, or may not stand there.
pub data Action : Type 0 where
  blank_row end_row end_field : Action
  keep : ℕ → Action
  skip malformed : Action

unfoldable pub field_step : ℕ → Action × Mode
field_step c =
    if c == b'"'
    then (skip, quoted)
    else if c == b','
    then (end_field, field_start)
    else if c == 10
    then (end_row, row_start)
    else (keep c, plain)

unfoldable pub step : Mode → ℕ → Action × Mode
unfolding field_step
step row_start c = if c == 10 then (blank_row, row_start) else field_step c
step field_start c = field_step c
step plain c =
    if c == b','
    then (end_field, field_start)
    else if c == 10
    then (end_row, row_start)
    else (keep c, plain)
step quoted c = if c == b'"' then (skip, closing) else (keep c, quoted)
step closing c =
    if c == b'"'
    then (keep c, quoted)
    else if c == b','
    then (end_field, field_start)
    else if c == 10
    then (end_row, row_start)
    else (malformed, plain)

-- The first field of the first row is the one that is being read.
abbrev pub apply : Action → Option (List (List Text)) → Option (List (List Text))
apply blank_row (some rows) = some ([] ∷ rows)
apply end_row (some rows) = some (([] ∷ []) ∷ rows)
apply end_field (some (row ∷ rows)) = some (([] ∷ row) ∷ rows)
apply (keep c) (some ((field ∷ row) ∷ rows)) = some (((c ∷ field) ∷ row) ∷ rows)
apply skip rows = rows
apply _ _ = none

abbrev pub at_end : Mode → Option (List (List Text))
at_end row_start = some []
at_end field_start = some (([] ∷ []) ∷ [])
at_end plain = some (([] ∷ []) ∷ [])
at_end quoted = none
at_end closing = some (([] ∷ []) ∷ [])

unfoldable pub read : Mode → Text → Option (List (List Text))
unfolding step
read mode [] = at_end mode
read mode (c ∷ s) = let (action, next) = step mode c in apply action (read next s)

-- The rows of a text, if it is well-formed.
unfoldable pub read_csv : Text → Option (List (List Text))
unfolding read
read_csv s = read row_start s
