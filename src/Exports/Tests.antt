-- ===== src/Exports/Tests.antt =====
-- The theorems of Exports at a concrete input: two columns, and a cell with a formula in it.
use queryops_ai.Prelude.{true, some, List, [], ◌∷◌, ◌++◌, ◌≡◌, refl}
use queryops_ai.Prelude.Texts.{Text, codes}
use queryops_ai.Exports.Csv.{
  null, text, printed, Row, is_space, lstrip, sanitize_csv_injection, cell_to_string, row_cells,
  all_cells, doubled, write_more, write_row, write_rows, rows_to_csv,
}
use queryops_ai.Exports.Csv.Reader.{read_csv}
use queryops_ai.Exports.Csv.Formulas.{HeadShows, TableShows, rows_to_csv_roundtrip}

abbrev columns : List Text
columns = codes "name" ∷ codes "n" ∷ []

abbrev ann : Row
ann [] = null
ann (c ∷ []) = printed (codes "-5")
ann (c ∷ d ∷ s) = text (codes " =1,\"2\"")

abbrev nobody : Row
nobody column = null

abbrev written : Text
written = codes "name,n\n\"' =1,\"\"2\"\"\",-5\n,\n"

write_test : rows_to_csv columns (ann ∷ nobody ∷ []) true ≡ some written
unfolding rows_to_csv all_cells row_cells cell_to_string sanitize_csv_injection lstrip is_space
    write_rows write_row doubled write_more
write_test = refl

-- A single empty cell is written as two quote characters, since a blank line is a row without cells.
empty_cell_test : rows_to_csv (codes "n" ∷ []) (nobody ∷ []) true ≡ some (codes "n\n\"\"\n")
unfolding rows_to_csv all_cells row_cells cell_to_string sanitize_csv_injection lstrip is_space
    write_rows write_row doubled write_more
empty_cell_test = refl

rows_to_csv_roundtrip_example :
    (head table : List (List Text)) × (read_csv written ≡ some (head ++ table))
    × HeadShows true columns head
    × TableShows columns (ann ∷ nobody ∷ []) table
rows_to_csv_roundtrip_example =
    rows_to_csv_roundtrip columns (ann ∷ nobody ∷ []) true written write_test
