-- ===== src/Plugins/CsvParser.antt =====
-- plugins/parsers/csv_parser.py. The codec, `splitlines` and `csv.reader` are given by their results.
pub mod Rows
use null.Prelude.{
  ℕ, pos, ◌+◌, String, Bool, true, false, not, ◌&&◌, ◌||◌, Option, none, some, List, [], ◌∷◌, ◌++◌,
  map, if◌then◌else◌,
}
use null.Text.{Text, codes, is_empty, text_eq, strip, starts_with}
use null.Errors.{Error, Result, ok, err, ◌>>=◌, permanent_error}
use null.Json.Str.{decimal}
use null.Models.{RawPayload}

pub record CsvParserConfig : Type 0 where
  pub has_header : Bool
  pub skip_comment_prefix : Text
  pub field_names : List Text

-- `decode`, where `none` is the exception that the code catches, `splitlines`, and the rows that
-- `csv.reader` makes of a text with the configured delimiter and quote, or its exception.
pub record CsvLibrary : Type 0 where
  pub decode : List ℕ → Option Text
  pub splitlines : Text → List Text
  pub reader : Text → Result (List (List Text))

-- The lines that reach the reader.
unfoldable pub data_lines : Text → List Text → List Text
unfolding starts_with
data_lines prefix [] = []
data_lines prefix (line ∷ lines) =
    let rest = data_lines prefix lines in
    if is_empty line || starts_with line prefix then rest else line ∷ rest

-- `"\n".join(lines)`
unfoldable pub join_lines : List Text → Text
join_lines [] = []
join_lines (line ∷ []) = line
join_lines (line ∷ next ∷ lines) = line ++ 10 ∷ join_lines (next ∷ lines)

-- `[f"col{i}" for i in range(…)]`
unfoldable pub column_names : ℕ → List Text → List Text
unfolding decimal
column_names i [] = []
column_names i (cell ∷ cells) = (codes "col" ++ decimal (pos i)) ∷ column_names (i + 1) cells

-- The keys of a record are texts here: a key that is there keeps its place.
unfoldable pub set_cell : Text → Text → List (Text × Text) → List (Text × Text)
set_cell key cell [] = (key, cell) ∷ []
set_cell key cell ((k, c) ∷ rest) =
    if text_eq k key then (k, cell) ∷ rest else (k, c) ∷ set_cell key cell rest

-- `dict(zip(header, row, strict=False))`
unfoldable pub zip_into : List Text → List Text → List (Text × Text) → List (Text × Text)
unfolding set_cell text_eq
zip_into [] row out = out
zip_into (key ∷ header) [] out = out
zip_into (key ∷ header) (cell ∷ row) out = zip_into header row (set_cell key cell out)

unfoldable pub stripped : List Text → List Text
unfolding strip
stripped = map strip

-- The comprehension over the rows, of which the empty ones are left out.
unfoldable pub records_of : List Text → List (List Text) → List (List (Text × Text))
unfolding zip_into stripped
records_of header [] = []
records_of header ([] ∷ rows) = records_of header rows
records_of header ((cell ∷ row) ∷ rows) =
    zip_into header (stripped (cell ∷ row)) [] ∷ records_of header rows

-- `header` and `data`, by their values.
abbrev pub header_and_data :
    CsvParserConfig → List Text → List (List Text) → List Text × List (List Text)
header_and_data config first rows =
    if config.has_header
    then (stripped first, rows)
    else (elim config.field_names [ [] ↦ column_names 0 first | n ∷ ns ↦ n ∷ ns ], first ∷ rows)

abbrev pub records_of_rows : CsvParserConfig → List (List Text) → List (List (Text × Text))
records_of_rows config [] = []
records_of_rows config (first ∷ rows) =
    let (header, body) = header_and_data config first rows in records_of header body

module _ (library : CsvLibrary) where
  abbrev pub parse_text : CsvParserConfig → Option Text → Result (List (List (Text × Text)))
  parse_text config none = err (record { cls = permanent_error; message = "csv decode error" })
  parse_text config (some text) =
      library.reader (join_lines (data_lines config.skip_comment_prefix (library.splitlines text)))
      >>= λ rows. ok (records_of_rows config rows)

  -- `CsvParser.parse_sync`
  unfoldable pub parse_sync : CsvParserConfig → RawPayload → Result (List (List (Text × Text)))
  unfolding data_lines join_lines records_of
  parse_sync config payload = parse_text config (library.decode payload.body)
