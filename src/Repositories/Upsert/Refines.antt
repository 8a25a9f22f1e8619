-- ===== src/Repositories/Upsert/Refines.antt =====
-- `PostgresPublisher.publish` against the abstract view: a map from ids to rows that are merged,
-- and a log of observations.
use null.Prelude.{
  ℕ, ◌+◌, ◌≡◌, ◌⊎◌, inl, inr, refl, sym, ap, ◌∙◌, Option, none, some, List, [], ◌∷◌, ◌++◌, map,
  append-nil, length, arith,
}
use mathlib.Core.List.{map-append}
use mathlib.Core.Path.{subst}
use null.Errors.{Error, Result, ok, err, Result-cases}
use null.Stages.Persist.{Pair}
use null.Repositories.Upsert.{
  IndicatorRow, IndicatorStore, indicator_row, execute_insert, observation_rows, second_time,
  upsert_batch, append_observations, publish,
}
use null.Repositories.Upsert.Merge.{find_row, merged, execute_insert-merged, repeated_fails}

-- The row that the batch proposes for an id.
abbrev pub proposed : ℕ → List Pair → Option IndicatorRow
proposed id batch = find_row id (map indicator_row batch)

-- `after` holds what `before` held, merged with the batch, and every observation of the batch.
pub record IsMerged (batch : List Pair) (before after : IndicatorStore) : Type 0 where
  pub rows :
      (id : ℕ)
      → find_row id after.indicators ≡ merged (find_row id before.indicators) (proposed id batch)
  pub logged :
      after.observations ≡ before.observations ++ observation_rows before.next_observation batch
  pub numbered : after.next_observation ≡ before.next_observation + length batch

abbrev statement : List Pair → List IndicatorRow → Result (List IndicatorRow)
statement batch rows = execute_insert [] (map indicator_row batch) rows

-- What `publish` comes to, by what its statement comes to.
publish-ok :
    (p : Pair) (ps : List Pair) (store : IndicatorStore) (rows : List IndicatorRow)
    → statement (p ∷ ps) store.indicators ≡ ok rows
    → publish none (p ∷ ps) store ≡ (none, append_observations (p ∷ ps) store rows)
unfolding publish upsert_batch
publish-ok p ps store rows e = rw (e, publish, upsert_batch)

publish-err :
    (p : Pair) (ps : List Pair) (store : IndicatorStore) (e : Error)
    → statement (p ∷ ps) store.indicators ≡ err e
    → publish none (p ∷ ps) store ≡ (some e, store)
unfolding publish upsert_batch
publish-err p ps store e failed = rw (failed, publish, upsert_batch)

pub publish-IsMerged :
    (outage : Option Error) (batch : List Pair) (store : IndicatorStore)
    → ((e : Error) × (publish outage batch store ≡ (some e, store)))
      ⊎ ((store' : IndicatorStore) × (publish outage batch store ≡ (none, store'))
          × IsMerged batch store store')
unfolding observation_rows
publish-IsMerged outage [] store = inr (
  store,
  unfold publish in refl,
  record {
    rows = λ id. unfold find_row in refl;
    logged = sym (append-nil store.observations);
    numbered = omega arith;
  },
)
publish-IsMerged (some e) (p ∷ ps) store = inl (e, unfold publish in refl)
publish-IsMerged none (p ∷ ps) store = elim (Result-cases (statement (p ∷ ps) store.indicators)) [
  | inl (rows, done) ↦ inr (
    append_observations (p ∷ ps) store rows,
    publish-ok p ps store rows done,
    record {
      rows = execute_insert-merged [] (map indicator_row (p ∷ ps)) store.indicators rows done;
      logged = refl;
      numbered = refl;
    },
  )
  | inr (e, failed) ↦ inl (e, publish-err p ps store e failed)
]

statement_repeated :
    (before : List Pair) (first : Pair) (between : List Pair) (second : Pair) (after : List Pair)
    (rows : List IndicatorRow)
    → first.0.id ≡ second.0.id
    → statement (before ++ first ∷ (between ++ second ∷ after)) rows ≡ err second_time
statement_repeated before first between second after rows same =
    rw (map-append indicator_row before, map-append indicator_row between)
      (repeated_fails [] (map indicator_row before) (indicator_row first)
        (map indicator_row between) (indicator_row second) (map indicator_row after) rows same)

-- A batch with two pairs for one indicator is not stored: PostgreSQL refuses the statement, and
-- `publish` raises and leaves the tables as they were.
pub publish_repeated :
    (before : List Pair) (first : Pair) (between : List Pair) (second : Pair) (after : List Pair)
    (store : IndicatorStore)
    → first.0.id ≡ second.0.id
    → publish none (before ++ first ∷ (between ++ second ∷ after)) store ≡ (some second_time, store)
publish_repeated [] first between second after store same =
    publish-err first (between ++ second ∷ after) store second_time
      (statement_repeated [] first between second after store.indicators same)
publish_repeated (p ∷ before) first between second after store same =
    publish-err p (before ++ first ∷ (between ++ second ∷ after)) store second_time
      (statement_repeated (p ∷ before) first between second after store.indicators same)

-- Where `publish` returns, it has merged.
pub publish-none-IsMerged :
    (outage : Option Error) (batch : List Pair) (store store' : IndicatorStore)
    → publish outage batch store ≡ (none, store')
    → IsMerged batch store store'
publish-none-IsMerged outage batch store store' e = elim (publish-IsMerged outage batch store) [
  | inl (failure, failed) ↦ cc
  | inr (reached, done, h) ↦
      subst (IsMerged batch store) (ap (λ (r : Option Error × IndicatorStore). r.1) (sym done ∙ e))
        h
]
