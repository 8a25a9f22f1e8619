-- ===== src/Registry.antt =====
-- manager/registry.py: the configured sources. `load` is modelled from the parsed file on: reading
-- it, YAML and the secrets are libraries' and input.
pub mod Load
mod Tests
use null.Prelude.{
  ℕ, ℤ, String, str_eq, str_append, Bool, true, false, ◌&&◌, ◌||◌, not, Option, none, some, List,
  [], ◌∷◌, leb, ◌==◌, if◌then◌else◌,
}
use null.Dict.{Dict, lookup, contains, insert, values}
use null.Text.{Text, codes, is_empty}
use null.Errors.{Error, Result, ok, err, ◌>>=◌, value_error, key_error}
use null.Enums.{Tlp, Severity}
use null.Json.{Fields}
use null.Retry.{RetryPolicy}
use null.Breaker.{CircuitPolicy}
use null.Stages.Normalize.{NormalizeConfig}

pub record SourceConfig : Type 0 where
  pub id : String
  pub name : Option String
  pub plugin : String
  pub enabled : Bool
  pub schedule : String
  pub jitter_seconds : ℤ
  pub rate_limit_rps : Option ℕ
  pub max_parallelism : ℤ
  pub timeout_seconds : ℤ
  pub retry : RetryPolicy
  pub circuit : CircuitPolicy
  pub parser : String
  pub enrichers : List String
  pub publishers : List String
  pub params : Fields
  pub parser_params : Fields
  pub enricher_params : Dict Fields
  pub publisher_params : Dict Fields
  pub normalize : NormalizeConfig
  pub tlp : Tlp
  pub severity_default : Severity
  pub confidence_default : ℤ
  pub tags : List Text

abbrev is_alnum : ℕ → Bool
is_alnum c = (leb b'0' c && leb c b'9') || (leb b'A' c && leb c b'Z') || (leb b'a' c && leb c b'z')

-- `s.replace("_", "").replace("-", "")`
unfoldable pub without_marks : Text → Text
without_marks [] = []
without_marks (c ∷ s) =
    let rest = without_marks s in if (c == b'_') || (c == b'-') then rest else c ∷ rest

abbrev pub all_alnum : Text → Bool
all_alnum [] = true
all_alnum (c ∷ s) = is_alnum c && all_alnum s

-- `_slug`: `"".isalnum()` is false.
unfoldable pub is_slug : String → Bool
unfolding without_marks
is_slug v = let bare = without_marks (codes v) in not (is_empty bare) && all_alnum bare

-- `SourcesFile.model_validate`: every source passes its validator.
unfoldable pub validate : List SourceConfig → Result (List SourceConfig)
unfolding is_slug
validate [] = ok []
validate (source ∷ sources) =
    if is_slug source.id
    then (do rest ← validate sources; ok (source ∷ rest))
    else err (record {
      cls = value_error;
      message = str_append "source id must be alnum/_/- only: " source.id;
    })

-- `SourceRegistry._sources`
abbrev pub SourceRegistry : Type 0
SourceRegistry = Dict SourceConfig

abbrev pub seen_before : String → List String → Bool
seen_before id [] = false
seen_before id (s ∷ seen) = str_eq s id || seen_before id seen

-- The loop of `load`: on a duplicate the sources before it are stored all the same.
unfoldable pub load_from :
    List String → List SourceConfig → SourceRegistry → Result (Unit {0}) × SourceRegistry
unfolding insert
load_from seen [] store = (ok tt, store)
load_from seen (source ∷ sources) store = elim (seen_before source.id seen) [
  | true ↦ (
    err (record { cls = value_error; message = str_append "duplicate source id: " source.id }),
    store,
  )
  | false ↦ load_from (source.id ∷ seen) sources (insert source.id source store)
]

abbrev load_validated :
    Result (List SourceConfig) → SourceRegistry → Result (Unit {0}) × SourceRegistry
load_validated (err e) store = (err e, store)
load_validated (ok sources) store = load_from [] sources store

-- `SourceRegistry.load`
unfoldable pub load : List SourceConfig → SourceRegistry → Result (Unit {0}) × SourceRegistry
unfolding validate load_from
load sources store = load_validated (validate sources) store

-- `SourceRegistry.all`
abbrev pub all_sources : SourceRegistry → List SourceConfig
all_sources store = values store

-- `SourceRegistry.get`
unfoldable pub get_source : String → SourceRegistry → Result SourceConfig
unfolding lookup
get_source id store = elim (lookup id store) [
  | none ↦ err (record { cls = key_error; message = str_append "unknown source: " id })
  | some source ↦ ok source
]

abbrev pub only_enabled : List SourceConfig → List SourceConfig
only_enabled [] = []
only_enabled (source ∷ sources) =
    let rest = only_enabled sources in if source.enabled then source ∷ rest else rest

-- `SourceRegistry.enabled`
abbrev pub enabled_sources : SourceRegistry → List SourceConfig
enabled_sources store = only_enabled (values store)
