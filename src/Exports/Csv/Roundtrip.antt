-- ===== src/Exports/Csv/Roundtrip.antt =====
-- Reading what was written gives the table.
use queryops_ai.Prelude.{
  ℕ, Bool, false, Option, none, some, List, [], ◌∷◌, ◌++◌, ◌≡◌, refl, sym, ap, ◌∙◌, inl, inr, arith,
  Bool-cases,
}
use mathlib.Core.Option.{some-injective}
use mathlib.Core.List.{append_assoc, append-nil}
use queryops_ai.Prelude.Texts.{Text, ◌>>=◌}
use queryops_ai.Exports.Csv.{
  Row, needs_quotes, doubled, write_field, write_more, write_row, write_rows, headers, all_cells,
  rows_to_csv,
}
use queryops_ai.Exports.Csv.Reader.{
  row_start, field_start, plain, quoted, closing, end_row, end_field, blank_row, field_step, step,
  apply, read, read_csv,
}

module _ (rest : Text) (row : List Text) (rows : List (List Text)) where
  -- Characters that need no quotes are read as they stand.
  read-plain :
      (s field : Text)
      → needs_quotes s ≡ false
      → read plain rest ≡ some ((field ∷ row) ∷ rows)
      → read plain (s ++ rest) ≡ some (((s ++ field) ∷ row) ∷ rows)
  unfolding read step
  read-plain [] field h e = e
  read-plain (c ∷ s) field h e = ground (arith, read-plain s field, e)

  -- Between quotes, a doubled quote character is one.
  read-quoted :
      (s field : Text)
      → read closing rest ≡ some ((field ∷ row) ∷ rows)
      → read quoted (doubled s ++ b'"' ∷ rest) ≡ some (((s ++ field) ∷ row) ∷ rows)
  unfolding read step doubled
  read-quoted [] field e = e
  read-quoted (c ∷ s) field e = ground (arith, read-quoted s field e)

  -- What follows ends the field, whatever kind of field it is.
  pub record Ends : Type 0 where
    at_start : read field_start rest ≡ some (([] ∷ row) ∷ rows)
    in_plain : read plain rest ≡ some (([] ∷ row) ∷ rows)
    in_closing : read closing rest ≡ some (([] ∷ row) ∷ rows)

  same_field : (field : Text) → some (((field ++ []) ∷ row) ∷ rows) ≡ some ((field ∷ row) ∷ rows)
  same_field field = ap (λ (f : Text). some ((f ∷ row) ∷ rows)) (append-nil field)

  read-bare :
      (field : Text)
      → Ends
      → needs_quotes field ≡ false
      → read field_start (field ++ rest) ≡ some ((field ∷ row) ∷ rows)
  unfolding read step field_step
  read-bare [] ends h = ends.at_start
  read-bare (c ∷ s) ends h = ground (arith, read-plain s [], ends.in_plain, append-nil s)

  -- A written field is read as it was.
  pub read-write_field :
      (field : Text)
      → Ends
      → read field_start (write_field field ++ rest) ≡ some ((field ∷ row) ∷ rows)
  unfolding read step field_step
  read-write_field field ends = elim (Bool-cases (needs_quotes field)) [
    | inl h ↦
        rw (h, append_assoc (doubled field) (b'"' ∷ []) rest)
          (read-quoted field [] ends.in_closing ∙ same_field field)
    | inr h ↦ rw h (read-bare field ends h)
  ]

-- The end of a row ends its last field.
row_ends :
    (s : Text) (rows : List (List Text)) → read row_start s ≡ some rows → Ends (10 ∷ s) [] rows
unfolding read step field_step
row_ends s rows e = record {
  at_start = ap (apply end_row) e;
  in_plain = ap (apply end_row) e;
  in_closing = ap (apply end_row) e;
}

-- The delimiter ends a field, and another one follows.
field_ends :
    (s : Text) (row : List Text) (rows : List (List Text))
    → read field_start s ≡ some (row ∷ rows)
    → Ends (b',' ∷ s) row rows
unfolding read step field_step
field_ends s row rows e = record {
  at_start = ap (apply end_field) e;
  in_plain = ap (apply end_field) e;
  in_closing = ap (apply end_field) e;
}

module _ (s : Text) (rows : List (List Text)) (e : read row_start s ≡ some rows) where
  more-Ends : (fs : List Text) → Ends (write_more fs ++ 10 ∷ s) fs rows
  unfolding write_more
  more-Ends [] = row_ends s rows e
  more-Ends (f ∷ fs) = field_ends ((write_field f ++ write_more fs) ++ 10 ∷ s) (f ∷ fs) rows (
      rw (append_assoc (write_field f) (write_more fs) (10 ∷ s))
        (read-write_field (write_more fs ++ 10 ∷ s) fs rows f (more-Ends fs)))

  fields-read :
      (f : Text) (fs : List Text)
      → read field_start ((write_field f ++ write_more fs) ++ 10 ∷ s) ≡ some ((f ∷ fs) ∷ rows)
  fields-read f fs =
      rw (append_assoc (write_field f) (write_more fs) (10 ∷ s))
        (read-write_field (write_more fs ++ 10 ∷ s) fs rows f (more-Ends fs))

-- Nothing but an empty field begins with the end of a row.
write_field-start :
    (c : ℕ) (f rest : Text)
    → read row_start (write_field (c ∷ f) ++ rest) ≡ read field_start (write_field (c ∷ f) ++ rest)
unfolding read step field_step
write_field-start c f rest = elim (Bool-cases (needs_quotes (c ∷ f))) [
  | inl h ↦ rw h refl
  | inr h ↦ rw h (ground (arith, h))
]

-- A written row is read as it was.
pub read-write_row :
    (fields : List Text) (s : Text) (rows : List (List Text))
    → read row_start s ≡ some rows
    → read row_start (write_row fields ++ s) ≡ some (fields ∷ rows)
unfolding write_row read step field_step write_more
read-write_row [] s rows e = ap (apply blank_row) e
read-write_row ([] ∷ []) s rows e = ap (apply end_row) e
read-write_row ([] ∷ g ∷ gs) s rows e =
    ap (read row_start) (append_assoc (write_more (g ∷ gs)) (10 ∷ []) s)
    ∙ fields-read s rows e [] (g ∷ gs)
read-write_row ((c ∷ f) ∷ fs) s rows e =
    rw
      (
        append_assoc (write_field (c ∷ f) ++ write_more fs) (10 ∷ []) s,
        append_assoc (write_field (c ∷ f)) (write_more fs) (10 ∷ s),
      )
      (write_field-start c f (write_more fs ++ 10 ∷ s)
        ∙ read-write_field (write_more fs ++ 10 ∷ s) fs rows (c ∷ f) (more-Ends s rows e fs))

-- A written table is read as it was.
pub read_csv-write_rows : (table : List (List Text)) → read_csv (write_rows table) ≡ some table
unfolding read_csv write_rows read
read_csv-write_rows [] = refl
read_csv-write_rows (r ∷ rs) = read-write_row r (write_rows rs) rs (read_csv-write_rows rs)

read_back :
    (head : List (List Text)) (cells? : Option (List (List Text))) (written : Text)
    → (cells? >>= λ cells. some (write_rows (head ++ cells))) ≡ some written
    → (cells : List (List Text)) × (cells? ≡ some cells) × (read_csv written ≡ some (head ++ cells))
read_back head none written e = cc
read_back head (some cells) written e =
    (cells, refl, ap read_csv (sym (some-injective _ _ e)) ∙ read_csv-write_rows (head ++ cells))

-- What the export writes is read as the header row, if any, and the rows of the cells' texts.
pub rows_to_csv-read_csv :
    (columns : List Text) (rows : List Row) (include_headers : Bool) (written : Text)
    → rows_to_csv columns rows include_headers ≡ some written
    → (cells : List (List Text)) × (all_cells columns rows ≡ some cells)
      × (read_csv written ≡ some (headers include_headers columns ++ cells))
unfolding rows_to_csv
rows_to_csv-read_csv columns rows include_headers written =
    read_back (headers include_headers columns) (all_cells columns rows) written
