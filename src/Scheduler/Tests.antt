-- ===== src/Scheduler/Tests.antt =====
-- A start that finds the job of a source that is no longer configured.
use null.Prelude.{String, ◌≡◌, refl, true, none, some, [], ◌∷◌, ◌++◌, All, pos, arith, eq_iff}
use null.Dict.{lookup, insert, values}
use null.Errors.{Result, ok}
use null.Enums.{mutex, info, amber}
use null.Json.{end}
use null.Registry.{SourceConfig, SourceRegistry, enabled_sources}
use null.Scheduler.{Job, JobStore, make_job, add_job, add_jobs, schedule}
use null.Scheduler.Jobs.{IsScheduled, schedule_lem}

abbrev from_crontab : String → Result String
from_crontab line = ok line

abbrev source : String → SourceConfig
source id = record {
  id = id;
  name = none;
  plugin = "builtin.http_json";
  enabled = true;
  schedule = "0 * * * *";
  jitter_seconds = pos 0;
  rate_limit_rps = none;
  max_parallelism = pos 1;
  timeout_seconds = pos 60;
  retry = record { max_attempts = 5; initial_seconds = 1; max_seconds = 60; jitter_seconds = 1 };
  circuit = record { failure_threshold = 5; recovery_seconds = 300 };
  parser = "builtin.json";
  enrichers = [];
  publishers = "postgres" ∷ [];
  params = end;
  parser_params = end;
  enricher_params = [];
  publisher_params = [];
  normalize = record {
    indicator_type = some mutex;
    type_field = none;
    value_field = "value";
    confidence_default = pos 50;
    confidence_field = none;
    severity_default = info;
    tlp_default = amber;
    static_tags = [];
    tags_field = none;
    skip_on_error = true;
  };
  tlp = amber;
  severity_default = info;
  confidence_default = pos 50;
  tags = [];
}

abbrev registry : SourceRegistry
registry = ("new", source "new") ∷ []

abbrev old_job : Job String
old_job = make_job from_crontab "cti:queue" (source "old") "0 * * * *"

abbrev store : JobStore from_crontab "cti:queue"
store = ("feed:old", old_job) ∷ []

abbrev after : JobStore from_crontab "cti:queue"
after = store ++ ("feed:new", make_job from_crontab "cti:queue" (source "new") "0 * * * *") ∷ []

schedule_lem_example :
    All (IsScheduled from_crontab "cti:queue" after) (enabled_sources registry)
    × (lookup "feed:old" after ≡ lookup "feed:old" store)
unfolding schedule add_jobs add_job insert values
schedule_lem_example =
    schedule_lem from_crontab "cti:queue" registry store after "feed:old" (tt, tt)
      (λ e. ground (arith, eq_iff "feed:new" "feed:old"), tt) refl
