-- ===== src/Models.antt =====
-- core/models.py: the records that flow through the pipeline. UUIDs are numbers of 128 bits, and
-- times whole numbers of one small tick.
pub mod Build
use null.Prelude.{ℕ, String, Option, List}
use null.Text.{Text}
use null.Enums.{IndicatorType, Tlp, RunState, Severity}
use null.Json.{Fields}

-- `SCHEMA_VERSION`
abbrev pub schema_version : String
schema_version = "1"

pub record RawPayload : Type 0 where
  pub body : List ℕ
  pub content_type : String
  pub fetched_at : ℕ
  pub etag : Option String
  pub last_modified : Option String
  pub source_url : Option String

pub record RunContext : Type 0 where
  pub run_id : ℕ
  pub source_id : String
  pub watermark : Fields
  pub raw_uri : Option String

pub record Indicator : Type 0 where
  pub id : ℕ
  pub type : IndicatorType
  pub value : Text
  pub pattern : Option Text
  pub confidence : ℕ
  pub severity : Severity
  pub tlp : Tlp
  pub tags : List Text
  pub first_seen_by_us : ℕ
  pub last_seen_by_us : ℕ
  pub valid_from : Option ℕ
  pub valid_until : Option ℕ
  pub schema_version : String

pub record Observation : Type 0 where
  pub indicator_id : ℕ
  pub source_id : String
  pub feed_run_id : ℕ
  pub observed_at : ℕ
  pub tlp : Tlp
  pub confidence : ℕ
  pub raw : Fields
  pub schema_version : String

pub record RunResult : Type 0 where
  pub run_id : ℕ
  pub source_id : String
  pub state : RunState
  pub started_at : ℕ
  pub finished_at : ℕ
  pub fetched_bytes : ℕ
  pub records_in : ℕ
  pub records_out : ℕ
  pub parse_errors : ℕ
  pub dropped_by_enricher : ℕ
  pub dropped_by_dedup : ℕ
  pub error : Option String
  pub watermark : Fields
  pub raw_uri : Option String
