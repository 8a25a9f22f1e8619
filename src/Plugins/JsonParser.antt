-- ===== src/Plugins/JsonParser.antt =====
-- plugins/parsers/json_parser.py. The codec and `json.loads` are given by their results.
pub mod Documents
use null.Prelude.{
  ℕ, String, Bool, true, false, Option, none, some, List, [], ◌∷◌, ◌++◌, if◌then◌else◌,
}
use null.Text.{Text, is_empty, strip}
use null.Errors.{Error, Result, ok, err, ◌>>=◌, permanent_error}
use null.Json.{Value, nothing, dict, list, Items, nil, cons, Fields, get_field}
use null.Models.{RawPayload}

-- `root_path` is given by its parts: none, or the texts between the dots.
pub record JsonParserConfig : Type 0 where
  pub ndjson : Bool
  pub root_path : List String

-- `decode` in the configured encoding, `splitlines` and `json.loads`, where `none` is the exception
-- that the code catches.
pub record JsonLibrary : Type 0 where
  pub decode : List ℕ → Option Text
  pub splitlines : Text → List Text
  pub loads : Text → Option Value

-- `d.get(k)`, with its `None`
abbrev pub or_nothing : Option Value → Value
or_nothing none = nothing
or_nothing (some v) = v

-- One step of the path: `None` where there is no such key or no mapping.
abbrev pub step_into : String → Value → Option Value
step_into part (dict fields) = some (or_nothing (get_field part fields))
step_into part _ = none

-- `_resolve_path`
unfoldable pub resolve_path : Value → List String → Value
unfolding get_field
resolve_path cur [] = cur
resolve_path cur (part ∷ path) = elim (step_into part cur) [
  | none ↦ nothing
  | some next ↦ resolve_path next path
]

-- `[v] if isinstance(v, dict) else []`
abbrev pub dict_only : Value → List Fields
dict_only (dict fields) = fields ∷ []
dict_only _ = []

unfoldable pub dicts_of : Items → List Fields
dicts_of nil = []
dicts_of (cons v vs) = dict_only v ++ dicts_of vs

-- The records of the node that the path leads to.
abbrev pub records_of_node : Value → List Fields
records_of_node (list items) = dicts_of items
records_of_node node = dict_only node

abbrev pub failing {ℓ} : {A : Type ℓ} → String → Result A
failing message = err (record { cls = permanent_error; message = message })

module _ (library : JsonLibrary) where
  -- A line that is blank or no JSON is left out.
  abbrev pub line_records : Option Value → List Fields
  line_records none = []
  line_records (some v) = dict_only v

  unfoldable pub parse_lines : List Text → List Fields
  unfolding strip
  parse_lines [] = []
  parse_lines (line ∷ lines) =
      let rest = parse_lines lines in
      if is_empty (strip line) then rest else line_records (library.loads (strip line)) ++ rest

  abbrev pub parse_document : List String → Option Value → Result (List Fields)
  parse_document path none = failing "invalid json"
  parse_document path (some doc) = ok (records_of_node (resolve_path doc path))

  abbrev pub parse_text : JsonParserConfig → Option Text → Result (List Fields)
  parse_text config none = failing "json decode error"
  parse_text config (some text) =
      if config.ndjson
      then ok (parse_lines (library.splitlines text))
      else parse_document config.root_path (library.loads text)

  -- `JsonParser.parse_sync`
  unfoldable pub parse_sync : JsonParserConfig → RawPayload → Result (List Fields)
  unfolding parse_lines resolve_path dicts_of
  parse_sync config payload = parse_text config (library.decode payload.body)
