-- ===== src/Exports/Csv/Formulas.antt =====
-- What `_sanitize_csv_injection` and `_cell_to_string` promise: no text is taken for a formula.
use queryops_ai.Prelude.{
  ℕ, Bool, true, false, some, List, [], ◌∷◌, ◌++◌, map, ◌≡◌, refl, sym, subst, ◌⊎◌, inl, inr, arith,
  Bool-cases,
}
use mathlib.Core.Option.{some-injective}
use queryops_ai.Prelude.Texts.{Text, went_through}
use queryops_ai.Exports.Csv.{
  Value, null, text, printed, document, other, Row, quote_mark, starts_among,
  csv_injection_prefixes, formula_prefixes, is_space, lstrip, sanitize_csv_injection,
  cell_to_string, row_cells, all_cells, headers, rows_to_csv,
}
use queryops_ai.Exports.Csv.Reader.{read_csv}
use queryops_ai.Exports.Csv.Roundtrip.{rows_to_csv-read_csv}

-- Neither the text nor what follows its leading white space begins as a formula.
abbrev pub IsInert : Text → Type 0
IsInert s =
    (starts_among csv_injection_prefixes s ≡ false)
    × (starts_among formula_prefixes (lstrip s) ≡ false)

-- A text behind a quote mark is inert.
quoted-IsInert : (s : Text) → IsInert (quote_mark ∷ s)
unfolding lstrip is_space
quoted-IsInert s = (refl, refl)

-- A text is guarded by a quote mark exactly when it is not inert.
abbrev pub IsGuarded : Text → Text → Type 0
IsGuarded s guarded =
    IsInert guarded × ((guarded ≡ s) × IsInert s ⊎ (guarded ≡ quote_mark ∷ s) × ¬ (IsInert s))

starts-quote : (s : Text) → starts_among (quote_mark ∷ []) s ≡ true → IsInert s
unfolding lstrip is_space
starts-quote [] h = cc
starts-quote (c ∷ s) h =
    let e : quote_mark ≡ c = ground (arith, h) in
    subst (λ (x : ℕ). IsInert (x ∷ s)) e (quoted-IsInert s)

pub sanitize_csv_injection-IsGuarded : (s : Text) → IsGuarded s (sanitize_csv_injection s)
unfolding sanitize_csv_injection
sanitize_csv_injection-IsGuarded s = elim (Bool-cases (starts_among (quote_mark ∷ []) s)) [
  | inl q ↦ rw q (starts-quote s q, inl (refl, starts-quote s q))
  | inr q ↦ elim (Bool-cases (starts_among csv_injection_prefixes s)) [
    | inl p ↦ rw (q, p) (quoted-IsInert s, inr (refl, λ inert. cc))
    | inr p ↦ elim (Bool-cases (starts_among formula_prefixes (lstrip s))) [
      | inl f ↦ rw (q, p, f) (quoted-IsInert s, inr (refl, λ inert. cc))
      | inr f ↦ rw (q, p, f) ((p, f), inl (refl, (refl, refl)))
    ]
  ]
]

-- What a cell of the export shows of its value: nothing for None, a guarded text for a text and for a
-- value of a type that the code does not know, and what Python prints for all else.
abbrev pub Shows : Value → Text → Type 0
Shows null cell = cell ≡ []
Shows (text s) cell = IsGuarded s cell
Shows (printed s) cell = cell ≡ s
Shows (document dumped) cell = dumped ≡ some cell
Shows (other s) cell = IsGuarded s cell

cell_to_string-Shows :
    (value : Value) (cell : Text) → cell_to_string value ≡ some cell → Shows value cell
unfolding cell_to_string
cell_to_string-Shows null cell e = sym (some-injective _ _ e)
cell_to_string-Shows (text s) cell e =
    subst (IsGuarded s) (some-injective _ _ e) (sanitize_csv_injection-IsGuarded s)
cell_to_string-Shows (printed s) cell e = sym (some-injective _ _ e)
cell_to_string-Shows (document dumped) cell e = e
cell_to_string-Shows (other s) cell e =
    subst (IsGuarded s) (some-injective _ _ e) (sanitize_csv_injection-IsGuarded s)

-- A row has a cell for each column, in the columns' order.
abbrev pub RowShows : List Text → Row → List Text → Type 0
RowShows [] row [] = Unit
RowShows (column ∷ columns) row (cell ∷ cells) =
    Shows (row column) cell × RowShows columns row cells
RowShows _ row _ = ⊥

abbrev pub TableShows : List Text → List Row → List (List Text) → Type 0
TableShows columns [] [] = Unit
TableShows columns (row ∷ rows) (cells ∷ table) =
    RowShows columns row cells × TableShows columns rows table
TableShows columns _ _ = ⊥

-- The row of the column names, where headers are asked for.
abbrev pub NamesGuarded : List Text → List Text → Type 0
NamesGuarded [] [] = Unit
NamesGuarded (column ∷ columns) (name ∷ names) = IsGuarded column name × NamesGuarded columns names
NamesGuarded _ _ = ⊥

abbrev pub HeadShows : Bool → List Text → List (List Text) → Type 0
HeadShows false columns [] = Unit
HeadShows true columns (names ∷ []) = NamesGuarded columns names
HeadShows _ columns _ = ⊥

names-NamesGuarded :
    (columns : List Text) → NamesGuarded columns (map sanitize_csv_injection columns)
names-NamesGuarded [] = tt
names-NamesGuarded (column ∷ columns) =
    (sanitize_csv_injection-IsGuarded column, names-NamesGuarded columns)

headers-HeadShows :
    (include_headers : Bool) (columns : List Text)
    → HeadShows include_headers columns (headers include_headers columns)
headers-HeadShows true columns = names-NamesGuarded columns
headers-HeadShows false columns = tt

row_cells-RowShows :
    (columns : List Text) (row : Row) (cells : List Text)
    → row_cells columns row ≡ some cells
    → RowShows columns row cells
unfolding row_cells
row_cells-RowShows [] row cells e = subst (RowShows [] row) (some-injective _ _ e) tt
row_cells-RowShows (column ∷ columns) row cells e =
    let (cell, first, e1) = went_through (cell_to_string (row column)) e in
    let (more, others, e2) = went_through (row_cells columns row) e1 in
    subst (RowShows (column ∷ columns) row) (some-injective _ _ e2)
      (cell_to_string-Shows (row column) cell first, row_cells-RowShows columns row more others)

all_cells-TableShows :
    (columns : List Text) (rows : List Row) (table : List (List Text))
    → all_cells columns rows ≡ some table
    → TableShows columns rows table
unfolding all_cells
all_cells-TableShows columns [] table e = subst (TableShows columns []) (some-injective _ _ e) tt
all_cells-TableShows columns (row ∷ rows) table e =
    let (cells, first, e1) = went_through (row_cells columns row) e in
    let (more, others, e2) = went_through (all_cells columns rows) e1 in
    subst (TableShows columns (row ∷ rows)) (some-injective _ _ e2)
      (row_cells-RowShows columns row cells first, all_cells-TableShows columns rows more others)

-- What `rows_to_csv` returns, when no document raises, is read back, by a reader that takes line feeds
-- alone as the ends of rows, as the row of the column names where headers are asked for, and then a row for
-- each row of the result, with a cell for each column, in order. A cell of None is empty; a number, a date
-- or a document is shown as Python prints it; a column name, a text or a value of another type is shown as
-- it is when neither it nor what follows its leading white space begins as a formula, and behind one quote
-- mark when it does, so that no such cell begins as a formula. Delimiters, quote characters and line feeds
-- within a text do not move it to another cell or row.
pub rows_to_csv_roundtrip :
    (columns : List Text) (rows : List Row) (include_headers : Bool) (written : Text)
    → rows_to_csv columns rows include_headers ≡ some written
    → (head table : List (List Text)) × (read_csv written ≡ some (head ++ table))
      × HeadShows include_headers columns head
      × TableShows columns rows table
rows_to_csv_roundtrip columns rows include_headers written e =
    let (table, cells, read_back) = rows_to_csv-read_csv columns rows include_headers written e in
    (
      headers include_headers columns,
      table,
      read_back,
      headers-HeadShows include_headers columns,
      all_cells-TableShows columns rows table cells,
    )
