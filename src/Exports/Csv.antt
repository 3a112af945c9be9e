-- ===== src/Exports/Csv.antt =====
-- backend/app/exports/csv_exporter.py, with the part of Python's `csv.writer` that it uses.
pub mod Reader
pub mod Roundtrip
pub mod Formulas
use queryops_ai.Prelude.{
  ℕ, String, Bool, true, false, not, ◌||◌, ◌&&◌, Option, none, some, List, [], ◌∷◌, ◌++◌, ◌==◌, map,
  any, leb, if◌then◌else◌,
}
use queryops_ai.Prelude.Texts.{Text, ◌>>=◌}

-- `value.startswith(prefixes)`, for prefixes of one character
abbrev pub starts_among : List ℕ → Text → Bool
starts_among cs [] = false
starts_among cs (x ∷ s) = any (λ c. x == c) cs

abbrev pub quote_mark : ℕ
quote_mark = b'\''

-- `CSV_INJECTION_PREFIXES`
abbrev pub csv_injection_prefixes : List ℕ
csv_injection_prefixes = b'=' ∷ b'+' ∷ b'-' ∷ b'@' ∷ 9 ∷ 13 ∷ 10 ∷ []

-- `FORMULA_PREFIXES`
abbrev pub formula_prefixes : List ℕ
formula_prefixes = b'=' ∷ b'+' ∷ b'-' ∷ b'@' ∷ []

-- `str.isspace` of one character
unfoldable pub is_space : ℕ → Bool
is_space c =
    any (λ d. c == d)
      (9 ∷ 10 ∷ 11 ∷ 12 ∷ 13 ∷ 28 ∷ 29 ∷ 30 ∷ 31 ∷ 32 ∷ 133 ∷ 160 ∷ 5760 ∷ 8232 ∷ 8233 ∷ 8239 ∷ 8287
        ∷ 12288 ∷ [])
    || (leb 8192 c && leb c 8202)

-- `value.lstrip()`
unfoldable pub lstrip : Text → Text
unfolding is_space
lstrip [] = []
lstrip (c ∷ s) = let rest = lstrip s in if is_space c then rest else c ∷ s

-- `_sanitize_csv_injection`
unfoldable pub sanitize_csv_injection : Text → Text
unfolding lstrip
sanitize_csv_injection value =
    if starts_among (quote_mark ∷ []) value
    then value
    else if starts_among csv_injection_prefixes value
    then quote_mark ∷ value
    else if starts_among formula_prefixes (lstrip value)
    then quote_mark ∷ value
    else value

-- A value of a row, by the branch of `_cell_to_string` that it takes, with what Python prints for it
-- where that is no text: `str` of a bool, a number or a UUID, `isoformat` of a date, and `json.dumps` of a
-- document, which raises (`none`) where the document holds what JSON does not know.
pub data Value : Type 0 where
  null : Value
  text : Text → Value
  printed : Text → Value
  document : Option Text → Value
  other : Text → Value

-- `_cell_to_string`
unfoldable pub cell_to_string : Value → Option Text
cell_to_string null = some []
cell_to_string (text s) = some (sanitize_csv_injection s)
cell_to_string (printed s) = some s
cell_to_string (document dumped) = dumped
cell_to_string (other s) = some (sanitize_csv_injection s)

-- What `csv.writer` must quote: the delimiter, the quote character and the line terminator.
abbrev pub is_special : ℕ → Bool
is_special c = c == b',' || c == b'"' || c == 10

abbrev pub needs_quotes : Text → Bool
needs_quotes s = any is_special s

-- A quote character is doubled.
unfoldable pub doubled : Text → Text
doubled [] = []
doubled (c ∷ s) = let rest = doubled s in if c == b'"' then c ∷ c ∷ rest else c ∷ rest

abbrev pub write_field : Text → Text
write_field s = if needs_quotes s then b'"' ∷ doubled s ++ b'"' ∷ [] else s

-- The fields from one on, each after a delimiter.
unfoldable pub write_more : List Text → Text
write_more [] = []
write_more (f ∷ fs) = b',' ∷ write_field f ++ write_more fs

-- A row of a single empty field is written as two quote characters.
abbrev pub write_fields : List Text → Text
write_fields [] = []
write_fields ([] ∷ []) = b'"' ∷ b'"' ∷ []
write_fields (f ∷ fs) = write_field f ++ write_more fs

-- `writer.writerow`
unfoldable pub write_row : List Text → Text
unfolding doubled write_more
write_row fields = write_fields fields ++ 10 ∷ []

unfoldable pub write_rows : List (List Text) → Text
write_rows [] = []
write_rows (r ∷ rs) = write_row r ++ write_rows rs

-- A row of the result is a mapping of columns to values; `row.get` of a missing one is None.
abbrev pub Row : Type 0
Row = Text → Value

unfoldable pub row_cells : List Text → Row → Option (List Text)
row_cells [] row = some []
row_cells (column ∷ columns) row = do
  cell ← cell_to_string (row column)
  cells ← row_cells columns row
  some (cell ∷ cells)

unfoldable pub all_cells : List Text → List Row → Option (List (List Text))
all_cells columns [] = some []
all_cells columns (row ∷ rows) = do
  cells ← row_cells columns row
  more ← all_cells columns rows
  some (cells ∷ more)

abbrev pub headers : Bool → List Text → List (List Text)
headers include_headers columns =
    if include_headers then map sanitize_csv_injection columns ∷ [] else []

-- `rows_to_csv`
unfoldable pub rows_to_csv : List Text → List Row → Bool → Option Text
rows_to_csv columns rows include_headers = do
  cells ← all_cells columns rows
  some (write_rows (headers include_headers columns ++ cells))
