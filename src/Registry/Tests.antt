-- ===== src/Registry/Tests.antt =====
-- Two sources that load, and two of one name that do not.
use null.Prelude.{pos, String, ◌≡◌, refl, true, none, some, List, [], ◌∷◌, All}
use null.Dict.{insert}
use null.Errors.{ok, err, value_error}
use null.Enums.{mutex, info, amber}
use null.Json.{end}
use null.Registry.{
  SourceConfig, SourceRegistry, is_slug, without_marks, validate, load_from, load, all_sources,
  get_source,
}
use null.Registry.Load.{load_lem}

abbrev source : String → SourceConfig
source id = record {
  id = id;
  name = none;
  plugin = "builtin.http_json";
  enabled = true;
  schedule = "0 */6 * * *";
  jitter_seconds = pos 60;
  rate_limit_rps = none;
  max_parallelism = pos 1;
  timeout_seconds = pos 60;
  retry = record { max_attempts = 5; initial_seconds = 1; max_seconds = 60; jitter_seconds = 1 };
  circuit = record { failure_threshold = 5; recovery_seconds = 300 };
  parser = "builtin.json";
  enrichers = [];
  publishers = "postgres" ∷ [];
  params = end;
  parser_params = end;
  enricher_params = [];
  publisher_params = [];
  normalize = record {
    indicator_type = some mutex;
    type_field = none;
    value_field = "value";
    confidence_default = pos 50;
    confidence_field = none;
    severity_default = info;
    tlp_default = amber;
    static_tags = [];
    tags_field = none;
    skip_on_error = true;
  };
  tlp = amber;
  severity_default = info;
  confidence_default = pos 50;
  tags = [];
}

abbrev two : List SourceConfig
two = source "feed-a" ∷ source "feed_b" ∷ []

abbrev loaded : SourceRegistry
loaded = ("feed-a", source "feed-a") ∷ ("feed_b", source "feed_b") ∷ []

load_lem_example : (all_sources loaded ≡ two) × All (λ s. get_source s.id loaded ≡ ok s) two
unfolding load validate is_slug without_marks load_from insert
load_lem_example = load_lem two loaded refl

duplicate :
    (load (source "feed" ∷ source "feed" ∷ []) []).0
    ≡ err (record { cls = value_error; message = "duplicate source id: feed" })
unfolding load validate is_slug without_marks load_from insert
duplicate = refl
