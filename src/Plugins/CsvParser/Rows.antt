-- ===== src/Plugins/CsvParser/Rows.antt =====
-- The records of a file with a header.
use null.Prelude.{
  ◌≡◌, refl, sym, ap, ◌∙◌, Bool, true, false, not, ◌&&◌, ◌||◌, some, List, [], ◌∷◌, ◌++◌, map,
  append-nil, append_assoc, arith,
}
use null.Text.{Text, text_eq}
use null.Errors.{ok}
use null.Models.{RawPayload}
use null.Plugins.CsvParser.{
  CsvParserConfig, CsvLibrary, data_lines, join_lines, set_cell, zip_into, stripped, records_of,
  parse_sync,
}

-- The cells under their headings, as far as both go.
abbrev pub zip : List Text → List Text → List (Text × Text)
zip [] row = []
zip (key ∷ header) [] = []
zip (key ∷ header) (cell ∷ row) = (key, cell) ∷ zip header row

unfoldable key_in : Text → List Text → Bool
key_in key [] = false
key_in key (k ∷ keys) = text_eq k key || key_in key keys

-- The headings differ from each other and from those before them.
unfoldable pub distinct_after : List Text → List Text → Bool
unfolding key_in
distinct_after seen [] = true
distinct_after seen (key ∷ header) =
    let rest = distinct_after (seen ++ key ∷ []) header in not (key_in key seen) && rest

abbrev keys_of : List (Text × Text) → List Text
keys_of [] = []
keys_of ((key, cell) ∷ rest) = key ∷ keys_of rest

keys_of-append :
    (out : List (Text × Text)) (key cell : Text)
    → keys_of (out ++ (key, cell) ∷ []) ≡ keys_of out ++ key ∷ []
keys_of-append [] key cell = refl
keys_of-append ((k, c) ∷ out) key cell = ap (λ (l : List Text). k ∷ l) (keys_of-append out key cell)

set_cell_new :
    (key cell : Text) (out : List (Text × Text))
    → key_in key (keys_of out) ≡ false
    → set_cell key cell out ≡ out ++ (key, cell) ∷ []
unfolding set_cell key_in
set_cell_new key cell [] h = refl
set_cell_new key cell ((k, c) ∷ out) h = ground (arith, set_cell_new key cell out)

zip_into-zip :
    (header row : List Text) (out : List (Text × Text))
    → distinct_after (keys_of out) header ≡ true
    → zip_into header row out ≡ out ++ zip header row
unfolding zip_into distinct_after
zip_into-zip [] row out h = sym (append-nil out)
zip_into-zip (key ∷ header) [] out h = sym (append-nil out)
zip_into-zip (key ∷ header) (cell ∷ row) out h =
    let new = set_cell_new key cell out (ground (arith, h)) in
    ap (zip_into header row) new
    ∙ zip_into-zip header row (out ++ (key, cell) ∷ []) (rw keys_of-append (ground (arith, h)))
    ∙ append_assoc out ((key, cell) ∷ []) (zip header row)

-- The rows with a cell.
abbrev pub filled : List (List Text) → List (List Text)
filled [] = []
filled ([] ∷ rows) = filled rows
filled ((cell ∷ row) ∷ rows) = (cell ∷ row) ∷ filled rows

records_of-zip :
    (header : List Text) (rows : List (List Text))
    → distinct_after [] header ≡ true
    → records_of header rows ≡ map (λ row. zip header (stripped row)) (filled rows)
unfolding records_of
records_of-zip header [] h = refl
records_of-zip header ([] ∷ rows) h = records_of-zip header rows h
records_of-zip header ((cell ∷ row) ∷ rows) h =
    cc (zip_into-zip header (stripped (cell ∷ row)) [] h, records_of-zip header rows h)

-- A file with a header of different headings: each row with a cell becomes one record, in order, and
-- each of its cells stands, stripped, under the heading of its column; cells without a heading and
-- headings without a cell are left out. The reader has only got the lines that are neither empty
-- nor a comment.
pub parse_sync-header :
    (library : CsvLibrary) (config : CsvParserConfig) (payload : RawPayload) (text : Text)
    (first : List Text) (rows : List (List Text))
    → config.has_header ≡ true
    → library.decode payload.body ≡ some text
    → library.reader (join_lines (data_lines config.skip_comment_prefix (library.splitlines text)))
      ≡ ok (first ∷ rows)
    → distinct_after [] (stripped first) ≡ true
    → parse_sync library config payload
      ≡ ok (map (λ row. zip (stripped first) (stripped row)) (filled rows))
unfolding parse_sync
parse_sync-header library config payload text first rows header decoded read distinct =
    rw (decoded, parse_sync, read, header, records_of-zip (stripped first) rows distinct) refl
