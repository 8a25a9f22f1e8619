-- ===== src/Plugins/JsonParser/Documents.antt =====
-- What the JSON parser makes of a document.
use null.Prelude.{◌≡◌, refl, ap, ◌∙◌, String, false, Option, some, List, [], ◌∷◌, arith, eq_iff}
use null.Text.{Text}
use null.Errors.{ok}
use null.Json.{Value, dict, list, Items, nil, cons, Fields, end, field, get_field}
use null.Models.{RawPayload}
use null.Plugins.JsonParser.{
  or_nothing, JsonParserConfig, JsonLibrary, resolve_path, dicts_of, records_of_node, parse_sync,
}

-- A document that holds `v` under the path.
unfoldable pub wrapped : List String → Value → Value
wrapped [] v = v
wrapped (part ∷ path) v = dict (field part (wrapped path v) end)

abbrev pub items_of : List Fields → Items
items_of [] = nil
items_of (r ∷ records) = cons (dict r) (items_of records)

own_field : (k : String) (v : Value) → get_field k (field k v end) ≡ some v
unfolding get_field
own_field k v = ground (arith, eq_iff k k)

resolve_path-wrapped : (path : List String) (v : Value) → resolve_path (wrapped path v) path ≡ v
unfolding resolve_path wrapped
resolve_path-wrapped [] v = refl
resolve_path-wrapped (part ∷ path) v =
    ap (λ (o : Option Value). resolve_path (or_nothing o) path) (own_field part (wrapped path v))
    ∙ resolve_path-wrapped path v

dicts_of-items_of : (records : List Fields) → dicts_of (items_of records) ≡ records
unfolding dicts_of
dicts_of-items_of [] = refl
dicts_of-items_of (r ∷ records) = ap (λ l. r ∷ l) (dicts_of-items_of records)

-- A whole document whose records stand as a list under the configured path: the parser returns
-- them, all and in order.
pub parse_sync-document :
    (library : JsonLibrary) (config : JsonParserConfig) (payload : RawPayload) (text : Text)
    (records : List Fields)
    → config.ndjson ≡ false
    → library.decode payload.body ≡ some text
    → library.loads text ≡ some (wrapped config.root_path (list (items_of records)))
    → parse_sync library config payload ≡ ok records
unfolding parse_sync
parse_sync-document library config payload text records whole decoded loaded =
    rw (decoded, whole, loaded)
      (ap (λ (v : Value). ok (records_of_node v))
          (resolve_path-wrapped config.root_path (list (items_of records)))
        ∙ ap (λ (l : List Fields). ok l) (dicts_of-items_of records))
