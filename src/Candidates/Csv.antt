-- ===== src/Candidates/Csv.antt =====
-- The CSV file of a bulk upload, as `csv.DictReader` reads it, and the checks of
-- `bulk_upload_from_csv` before its rows.
use i_bot_core_api_service.Prelude.{
  String, Bool, false, not, ◌&&◌, Option, none, some, List, [], ◌∷◌, map, contains, ◌==◌, string_eq,
  if◌then◌else◌,
}
use i_bot_core_api_service.Db.{Result, ok, err, csv_validation}
use i_bot_core_api_service.Candidates.Repository.{Texts}

-- A row: its cells by their headers. The key is None for surplus cells, and a value is None for a
-- cell that the row is too short to have.
abbrev pub RawRow : Type 0
RawRow = List (Option String × Option String)

-- `fieldnames` is none for an empty file.
pub data CsvFile : Type 0 where
  not_utf8 : CsvFile
  table : Option (List String) → List RawRow → CsvFile

module _ (texts : Texts) where
  abbrev pub normalized : String → String
  normalized h = texts.lower (texts.strip h)

  abbrev cell : Option String → String
  cell none = texts.strip ""
  cell (some v) = texts.strip v

  -- `if k`
  abbrev pub named : String → Option String → Bool
  named column none = false
  named column (some k) = not (k == "") && normalized k == column

  -- `row.get(column, "")` of the row with normalized keys, of which a later one overrides.
  unfoldable pub get_cell : String → RawRow → Option String
  get_cell column [] = none
  get_cell column ((k, v) ∷ rest) =
      let later = get_cell column rest in
      elim later [ some w ↦ some w | none ↦ if named column k then some (cell v) else none ]

  abbrev or_blank : Option String → String
  or_blank none = ""
  or_blank (some v) = v

  unfoldable pub column : String → RawRow → String
  column name row = or_blank (get_cell name row)

  unfoldable pub has_required_columns : List String → Bool
  has_required_columns headers =
      let names = map normalized headers in
      contains "name" names && contains "email" names && contains "resume" names

  abbrev some_rows : List RawRow → Result (List RawRow)
  some_rows [] = err csv_validation
  some_rows (row ∷ rows) = ok (row ∷ rows)

  -- The rows of a file that passes the checks.
  unfoldable pub data_rows : CsvFile → Result (List RawRow)
  data_rows not_utf8 = err csv_validation
  data_rows (table none rows) = err csv_validation
  data_rows (table (some headers) rows) =
      if has_required_columns headers then some_rows rows else err csv_validation
