-- ===== src/State.antt =====
-- manager/state.py and manager/deadletter.py: the rows of a feed run.
pub mod Lifecycle
mod Tests
use null.Prelude.{
  ℕ, String, str_append, Bool, true, false, Option, none, some, List, [], ◌∷◌, ◌++◌, if◌then◌else◌,
}
use null.Errors.{Error, Result, ok, err, ◌>>=◌, watermark_conflict, other_error}
use null.Enums.{RunState, pending, running, success, partial, failed}
use null.Json.{Fields, end}
use null.Tables.{Table}

pub record SourceRow : Type 0 where
  pub id : String
  pub name : Option String
  pub plugin : String
  pub config_hash : String
  pub enabled : Bool
  pub watermark : Option Fields
  pub last_etag : Option String
  pub last_modified : Option String
  pub last_seen_id : Option String
  pub created_at : ℕ
  pub updated_at : ℕ

pub record FeedRunRow : Type 0 where
  pub id : ℕ
  pub source_id : String
  pub state : RunState
  pub started_at : ℕ
  pub finished_at : Option ℕ
  pub fetched_bytes : ℕ
  pub records_in : ℕ
  pub records_out : ℕ
  pub error : Option String
  pub watermark : Option Fields
  pub raw_uri : Option String

-- The columns of `DeadLetterRow` but for the id and the digest, which the libraries make.
pub record DeadLetterRow : Type 0 where
  pub feed_run_id : ℕ
  pub source_id : String
  pub error : Error
  pub reason : String
  pub created_at : ℕ
  pub replayed_at : Option ℕ

abbrev pub is_success : RunState → Bool
is_success success = true
is_success _ = false

abbrev pub or_empty : Option Fields → Fields
or_empty none = end
or_empty (some w) = w

module _ (sources : Table String SourceRow) (runs : Table ℕ FeedRunRow) where
  open sources use {Rows as Sources, get as get_source, put as put_source}
  open runs use {Rows as Runs, get as get_run, put as put_run}

  pub record Database : Type 0 where
    pub source_rows : Sources
    pub run_rows : Runs
    pub dead_letters : List DeadLetterRow

  -- `session.add(row)` and `flush` of a new row: a key that is taken violates the primary key.
  unfoldable pub add_run : FeedRunRow → Database → Result Database
  add_run row db = elim (get_run row.id db.run_rows) [
    | none ↦ ok (record db { run_rows = put_run row.id row db.run_rows })
    | some _ ↦ err (record { cls = other_error; message = "duplicate key" })
  ]

  -- `open_run`
  unfoldable pub open_run : String → ℕ → ℕ → Database → Result (FeedRunRow × Fields × Database)
  unfolding add_run
  open_run source_id run_id now db = elim (get_source source_id db.source_rows) [
    | none ↦ err (record {
      cls = watermark_conflict;
      message = str_append "source not registered: " source_id;
    })
    | some source ↦
        let row : FeedRunRow = record {
          id = run_id;
          source_id = source_id;
          state = pending;
          started_at = now;
          finished_at = none;
          fetched_bytes = 0;
          records_in = 0;
          records_out = 0;
          error = none;
          watermark = some end;
          raw_uri = none;
        } in
        (do db' ← add_run row db; ok (row, or_empty source.watermark, db'))
  ]

  -- `mark_running`
  unfoldable pub mark_running : FeedRunRow → Database → FeedRunRow × Database
  mark_running row db =
      let row' : FeedRunRow = record row { state = running } in
      (row', record db { run_rows = put_run row.id row' db.run_rows })

  -- `finalize_run`: the row as it is written.
  unfoldable pub finalized :
      FeedRunRow
      → RunState
      → ℕ
      → ℕ
      → ℕ
      → ℕ
      → Option String
      → Option Fields
      → Option String
      → FeedRunRow
  finalized row state now fetched_bytes records_in records_out error watermark raw_uri =
      record row {
        state = state;
        finished_at = some now;
        fetched_bytes = fetched_bytes;
        records_in = records_in;
        records_out = records_out;
        error = error;
        watermark = some (or_empty watermark);
        raw_uri = raw_uri;
      }

  abbrev pub set_watermark : Fields → String → Option SourceRow → Database → Database
  set_watermark w source_id none db = db
  set_watermark w source_id (some source) db = record db {
    source_rows = put_source source_id (record source { watermark = some w }) db.source_rows;
  }

  -- The source's watermark moves only with a run that succeeded.
  abbrev pub advance : RunState → Option Fields → String → Database → Database
  advance state none source_id db = db
  advance state (some w) source_id db =
      if is_success state
      then set_watermark w source_id (get_source source_id db.source_rows) db
      else db

  -- `finalize_run`
  unfoldable pub finalize_run :
      FeedRunRow
      → RunState
      → ℕ
      → ℕ
      → ℕ
      → ℕ
      → Option String
      → Option Fields
      → Option String
      → Database
      → Database
  unfolding finalized
  finalize_run row state now fetched_bytes records_in records_out error watermark raw_uri db =
      let row' =
        finalized row state now fetched_bytes records_in records_out error watermark raw_uri in
      advance state watermark row.source_id
        (record db { run_rows = put_run row.id row' db.run_rows })

  -- `record_dead_letter`
  unfoldable pub record_dead_letter : ℕ → String → Error → ℕ → Database → Database
  record_dead_letter feed_run_id source_id error now db = record db {
    dead_letters =
        db.dead_letters
        ++ record {
          feed_run_id = feed_run_id;
          source_id = source_id;
          error = error;
          reason = "permanent";
          created_at = now;
          replayed_at = none;
        }
          ∷ [];
  }
