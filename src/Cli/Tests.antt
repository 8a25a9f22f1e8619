-- ===== src/Cli/Tests.antt =====
-- A replay of one archived run, a configuration and settings that are shown, and a dead letter.
use null.Prelude.{
  arith, ℕ, String, str_eq, if◌then◌else◌, ◌≡◌, refl, true, none, some, [], ◌∷◌, eq_iff, pos,
}
use null.Errors.{Result, ok, err, value_error, other_error}
use null.Enums.{RunState, success, run_state_value, mutex, info, amber}
use null.Text.{Text, codes, lower, to_lower, text_eq, starts_with}
use null.Json.{Value, str, dict, field, end}
use null.Tables.{Table}
use null.Tables.Assoc.{text_table, number_table, find}
use null.Pipeline.{finished, run_result}
use null.Retry.Instance.{attempts_in_turn}
use null.State.{SourceRow, FeedRunRow}
use null.Registry.{SourceConfig}
use null.Runner.{Pipeline}
use null.Plugins.Builder.{PluginLoader, PipelineSpec}
use null.Repositories.{DeadLetter}
use null.Cli.{prints, exits, printed}
use null.Cli.Dlq.{get_dead_letter, show}
use null.Cli.Runs.{NewRun, Platform, run_source, run_once, replay}
use null.Cli.Runs.Ignored.{replay-run_once}
use null.Cli.Masking.{mask}
use null.Cli.Settings.{show_config, is_secret_setting, contains_text}
use null.Cli.Sources.{is_secret}
use null.Cli.Masking.Masked.{Alike, in_dict, secret_field, open_field, no_field, same, mask_lem}

abbrev sources : Table String SourceRow
sources = text_table SourceRow

abbrev runs : Table ℕ FeedRunRow
runs = number_table FeedRunRow

-- A loader for which a plugin is its name.
abbrev loader : PluginLoader
loader = record {
  Connector = String;
  Parser = String;
  Enricher = String;
  Publisher = String;
  load_connector = λ name params. ok name;
  load_parser = λ name params. ok name;
  load_enricher = λ name params. ok name;
  load_publisher = λ name params. ok name;
}

-- Every pipeline ends normally.
abbrev pipeline_of : PipelineSpec loader → Pipeline
pipeline_of spec ctx n = finished (run_result ctx 2 3)

abbrev source : SourceConfig
source = record {
  id = "feed";
  name = none;
  plugin = "builtin.http_json";
  enabled = true;
  schedule = "0 */6 * * *";
  jitter_seconds = pos 60;
  rate_limit_rps = none;
  max_parallelism = pos 1;
  timeout_seconds = pos 60;
  retry = record { max_attempts = 5; initial_seconds = 1; max_seconds = 60; jitter_seconds = 1 };
  circuit = record { failure_threshold = 5; recovery_seconds = 300 };
  parser = "builtin.json";
  enrichers = "defang" ∷ [];
  publishers = "webhook" ∷ "kafka" ∷ [];
  params = end;
  parser_params = end;
  enricher_params = [];
  publisher_params = [];
  normalize = record {
    indicator_type = some mutex;
    type_field = none;
    value_field = "value";
    confidence_default = pos 50;
    confidence_field = none;
    severity_default = info;
    tlp_default = amber;
    static_tags = [];
    tags_field = none;
    skip_on_error = true;
  };
  tlp = amber;
  severity_default = info;
  confidence_default = pos 50;
  tags = [];
}

abbrev row : SourceRow
row = record {
  id = "feed";
  name = none;
  plugin = "builtin.http_json";
  config_hash = "";
  enabled = true;
  watermark = some (field "etag" (str (codes "v1")) end);
  last_etag = none;
  last_modified = none;
  last_seen_id = none;
  created_at = 0;
  updated_at = 0;
}

abbrev run : FeedRunRow
run = record {
  id = 7;
  source_id = "feed";
  state = success;
  started_at = 1;
  finished_at = some 2;
  fetched_bytes = 0;
  records_in = 0;
  records_out = 0;
  error = none;
  watermark = none;
  raw_uri = some "s3://raw/feed/7";
}

abbrev world : Platform sources runs attempts_in_turn loader pipeline_of
world = record {
  breakers = [];
  db = record { source_rows = ("feed", row) ∷ []; run_rows = (7, run) ∷ []; dead_letters = [] };
  pipeline_calls = 0;
  plugins_closed = 0;
}

abbrev new : NewRun
new = record {
  run_id = 8;
  clock = record {
    before_at = 0;
    opened_at = 1;
    started_at = λ n. 2;
    ended_at = λ n. 3;
    finalized_at = 10;
    failed_at = 11;
  };
}

-- It knows one text of a UUID.
abbrev uuid : String → Result ℕ
uuid t = if str_eq t "7" then ok 7 else err (record { cls = value_error; message = t })

replay-run_once_example :
    let (outcome, w') =
      run_source sources runs attempts_in_turn loader pipeline_of none new "feed"
        (source ∷ [])
        world in
    (replay sources runs attempts_in_turn loader pipeline_of uuid "7" "enrich" new
        (source ∷ [])
        world
      ≡ (printed (λ (s : RunState). ("feed", "enrich", run_state_value s)) outcome, w'))
    × (run_once sources runs attempts_in_turn loader pipeline_of "feed" new (source ∷ []) world
        ≡ (printed (λ (s : RunState). ("feed", run_state_value s)) outcome, w'))
unfolding find
replay-run_once_example =
    replay-run_once sources runs attempts_in_turn loader pipeline_of uuid "7" "enrich"
      "s3://raw/feed/7" new (source ∷ []) world 7 run refl refl refl refl
      (λ e. ground (arith, eq_iff "s3://raw/feed/7" ""))

-- A configuration with this token.
abbrev config : Text → Value
config token =
    dict (field "params" (dict (field "Token" (str token) (field "limit" (str []) end))) end)

mask_lem_example :
    (mask is_secret (config (codes "a")) ≡ mask is_secret (config (codes "b")))
    × Alike is_secret (config (codes "a")) (mask is_secret (config (codes "a")))
unfolding is_secret lower to_lower text_eq
mask_lem_example = mask_lem is_secret (config (codes "a")) (config (codes "b")) (
    in_dict
      (open_field (in_dict (secret_field refl (open_field (same (str [])) no_field))) no_field))

shows_mask : mask is_secret (config (codes "a")) ≡ config (codes "***")
unfolding mask is_secret lower to_lower text_eq
shows_mask = refl

shows_settings :
    show_config (dict (field "db" (dict (field "DSN" (str (codes "postgres://u:p@h")) end)) end))
    ≡ prints (dict (field "db" (dict (field "DSN" (str (codes "***")) end)) end))
unfolding show_config mask is_secret_setting contains_text lower to_lower starts_with
shows_settings = refl

abbrev letter : DeadLetter
letter = record {
  id = 3;
  letter = record {
    feed_run_id = 7;
    source_id = "feed";
    error = record { cls = other_error; message = "bad" };
    reason = "permanent";
    created_at = 5;
    replayed_at = none;
  };
}

shows_letters : (show 3 (letter ∷ []) ≡ prints letter) × (show 4 (letter ∷ []) ≡ exits 1)
unfolding show get_dead_letter
shows_letters = (refl, refl)
