-- ===== src/State/Lifecycle.antt =====
-- The life of a run's row, and of its source's watermark.
use null.Prelude.{
  ℕ, String, ◌≡◌, ◌≢◌, refl, sym, ◌∙◌, inl, inr, Option, none, some, arith, Bool-cases,
  if◌then◌else◌,
}
use null.Errors.{Result, ok, ◌>>=◌}
use null.Enums.{RunState, pending, running}
use null.Json.{Fields, end}
use null.Tables.{Table}
use null.State.{
  SourceRow, FeedRunRow, Database, is_success, open_run, mark_running, finalized, finalize_run,
}

abbrev fresh_row : String → ℕ → ℕ → FeedRunRow
fresh_row source_id run_id now = record {
  id = run_id;
  source_id = source_id;
  state = pending;
  started_at = now;
  finished_at = none;
  fetched_bytes = 0;
  records_in = 0;
  records_out = 0;
  error = none;
  watermark = some end;
  raw_uri = none;
}

module _ (sources : Table String SourceRow) (runs : Table ℕ FeedRunRow) where
  module _ (row : FeedRunRow) (state : RunState) (now bytes records_in records_out : ℕ)
      (error : Option String) (w : Fields) (raw_uri : Option String)
      (db : Database sources runs) where
    abbrev row' : FeedRunRow
    row' = finalized sources runs row state now bytes records_in records_out error (some w) raw_uri

    abbrev written : Database sources runs
    written =
        finalize_run sources runs row state now bytes records_in records_out error (some w) raw_uri
          db

    pub finalize_run_self :
        (source : SourceRow)
        → sources.get row.source_id db.source_rows ≡ some source
        → (runs.get row.id written.run_rows ≡ some row')
          × (sources.get row.source_id written.source_rows
              ≡ some (if is_success state then record source { watermark = some w } else source))
          × (written.dead_letters ≡ db.dead_letters)
    unfolding finalize_run
    finalize_run_self source found = elim (Bool-cases (is_success state)) [
      | inl succeeded ↦ (
        ground (arith, runs.get-put_self row.id row' db.run_rows),
        ground (
          arith,
          sources.get-put_self row.source_id (record source { watermark = some w }) db.source_rows,
        ),
        ground arith,
      )
      | inr other ↦
          (ground (arith, runs.get-put_self row.id row' db.run_rows), ground arith, ground arith)
    ]

    finalize_run_other :
        (source : SourceRow) (run : ℕ) (id : String)
        → sources.get row.source_id db.source_rows ≡ some source
        → row.id ≢ run
        → row.source_id ≢ id
        → (runs.get run written.run_rows ≡ runs.get run db.run_rows)
          × (sources.get id written.source_rows ≡ sources.get id db.source_rows)
    unfolding finalize_run
    finalize_run_other source run id found ne ne' = elim (Bool-cases (is_success state)) [
      | inl succeeded ↦ (
        ground (arith, runs.get-put_ne row.id run row' db.run_rows ne),
        ground (
          arith,
          sources.get-put_ne row.source_id id (record source { watermark = some w }) db.source_rows
              ne',
        ),
      )
      | inr other ↦ (ground (arith, runs.get-put_ne row.id run row' db.run_rows ne), ground arith)
    ]

    -- What `finalize_run` writes, where the source of the run is registered: the row of the run with
    -- its state, end, counts, error, watermark and URI, and otherwise as it was; the watermark of the
    -- run's source if the run succeeded, and otherwise the source as it was. Another run and another
    -- source do not change, and no dead letter is recorded.
    pub finalize_run_lem :
        (source : SourceRow) (run : ℕ) (id : String)
        → sources.get row.source_id db.source_rows ≡ some source
        → row.id ≢ run
        → row.source_id ≢ id
        → let db' =
            finalize_run sources runs row state now bytes records_in records_out error
              (some w)
              raw_uri
              db in
          (runs.get row.id db'.run_rows
            ≡ some (record row {
              state = state;
              finished_at = some now;
              fetched_bytes = bytes;
              records_in = records_in;
              records_out = records_out;
              error = error;
              watermark = some w;
              raw_uri = raw_uri;
            }))
          × (sources.get row.source_id db'.source_rows
              ≡ some (if is_success state then record source { watermark = some w } else source))
          × (db'.dead_letters ≡ db.dead_letters)
          × (runs.get run db'.run_rows ≡ runs.get run db.run_rows)
          × (sources.get id db'.source_rows ≡ sources.get id db.source_rows)
    unfolding finalized
    finalize_run_lem source run id found ne ne' =
        let (row_is, source_is, dead) = finalize_run_self source found in
        let (other_run, other_source) = finalize_run_other source run id found ne ne' in
        (row_is, source_is, dead, other_run, other_source)

  -- `open_run` then `mark_running`, as the runner calls them in one transaction.
  unfoldable pub begin :
      String → ℕ → ℕ → Database sources runs → Result (FeedRunRow × Database sources runs)
  unfolding open_run mark_running
  begin source_id run_id now db = do
    opened ← open_run sources runs source_id run_id now db
    ok (mark_running sources runs opened.0 opened.2)

  begin-registered :
      (source_id : String) (run_id now : ℕ) (db : Database sources runs) {source : SourceRow}
      → sources.get source_id db.source_rows ≡ some source
      → runs.get run_id db.run_rows ≡ none
      → (row : FeedRunRow) × (db' : Database sources runs) × (begin source_id run_id now db
          ≡ ok (row, db'))
        × (row.source_id ≡ source_id)
        × (row.state ≡ running)
        × (runs.get run_id db'.run_rows ≡ some row)
        × (db'.source_rows ≡ db.source_rows)
        × ((k : ℕ) → run_id ≢ k → runs.get k db'.run_rows ≡ runs.get k db.run_rows)
  unfolding begin open_run mark_running
  begin-registered source_id run_id now db found free =
      let row = fresh_row source_id run_id now in
      let first = runs.put run_id row db.run_rows in
      let again = record row { state = running } in
      (
        again,
        record db { run_rows = runs.put run_id again first },
        ground arith,
        refl,
        refl,
        runs.get-put_self run_id again first,
        refl,
        λ k ne.
            runs.get-put_ne run_id k again first ne ∙ runs.get-put_ne run_id k row db.run_rows ne,
      )

  -- Two runs of one registered source, with two new run ids, of which the second begins once the
  -- first has committed: both begin, and both rows are RUNNING at the same time.
  pub overlapping_runs :
      (source_id : String) (first second t u : ℕ) (db : Database sources runs) {source : SourceRow}
      → sources.get source_id db.source_rows ≡ some source
      → runs.get first db.run_rows ≡ none
      → runs.get second db.run_rows ≡ none
      → first ≢ second
      → (a b : FeedRunRow) × (db' : Database sources runs) × ((do
        opened ← begin source_id first t db
        begin source_id second u opened.1)
          ≡ ok (b, db'))
        × (runs.get first db'.run_rows ≡ some a)
        × (runs.get second db'.run_rows ≡ some b)
        × (a.state ≡ running)
        × (b.state ≡ running)
        × (a.source_id ≡ source_id)
        × (b.source_id ≡ source_id)
  overlapping_runs source_id first second t u db {source} found free free' ne =
      let (a, db₁, begun, source_a, running_a, stored_a, same_sources, others) =
        begin-registered source_id first t db {source = source} found free in
      let (b, db₂, begun', source_b, running_b, stored_b, same_sources', others') =
        begin-registered source_id second u db₁ {source = source} (rw same_sources found)
          (others second ne ∙ free') in
      (
        a,
        b,
        db₂,
        rw begun begun',
        others' first (λ e. ne (sym e)) ∙ stored_a,
        stored_b,
        running_a,
        running_b,
        source_a,
        source_b,
      )
