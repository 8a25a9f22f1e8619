-- ===== src/Stages/Normalize/Skipping.antt =====
-- What the normalise stage passes on, and which exceptions end it.
use null.Prelude.{
  ℕ, ◌≡◌, refl, ap, ◌∙◌, Bool, true, false, ◌&&◌, Option, none, some, List, [], ◌∷◌, ◌++◌, All,
  replicate, suc, arith, if◌then◌else◌, Bool-cases, inl, inr,
}
use null.Errors.{Error, Result, ok, err}
use null.Models.{Indicator}
use null.Json.{Fields}
use null.Hashing.{TextLibrary}
use null.Stages.Run.{StageRun, Metric, parse_errors}
use null.Stages.Normalize.{
  NormalizeConfig, record_to_indicator, is_skippable, normalized, run_normalize,
}

-- What a record contributes to the output, and to the count of parse errors.
abbrev pub accepted :
    Fields → Result (Option Indicator) → List (Indicator × Fields) → List (Indicator × Fields)
accepted fields (ok (some i)) rest = (i, fields) ∷ rest
accepted fields _ rest = rest

abbrev pub failure : Result (Option Indicator) → ℕ → ℕ
failure (err e) n = suc n
failure (ok _) n = n

no_skip : {a b : Bool} → a ≡ true → (a && b) ≡ false → b ≡ false
no_skip h k = ground arith

counted :
    (r : Result (Option Indicator)) (n : ℕ)
    → replicate (failure r 0) parse_errors ++ replicate n parse_errors
      ≡ replicate (failure r n) parse_errors
counted (ok _) n = refl
counted (err e) n = refl

counted_append :
    (r : Result (Option Indicator)) (n : ℕ) (ms : List Metric)
    → replicate (failure r 0) parse_errors ++ (replicate n parse_errors ++ ms)
      ≡ replicate (failure r n) parse_errors ++ ms
counted_append (ok _) n ms = refl
counted_append (err e) n ms = refl

module _ (library : TextLibrary) (now : ℕ) (cfg : NormalizeConfig) where
  unfoldable pub accepted_all : List Fields → List (Indicator × Fields)
  accepted_all [] = []
  accepted_all (fields ∷ inq) =
      accepted fields (record_to_indicator library now cfg fields) (accepted_all inq)

  pub failures : List Fields → ℕ
  failures [] = 0
  failures (fields ∷ inq) = failure (record_to_indicator library now cfg fields) (failures inq)

  -- The record is normalised, or left out, or its exception is skipped.
  abbrev pub IsPassed : Result (Option Indicator) → Type 0
  IsPassed (ok _) = Unit
  IsPassed (err e) = (is_skippable library now cfg e.cls && cfg.skip_on_error) ≡ true

  abbrev pub passed_run : List Fields → StageRun (Indicator × Fields)
  passed_run inq = record {
    out = accepted_all inq;
    closed = true;
    raised = none;
    metrics = replicate (failures inq) parse_errors;
  }

  step :
      (fields : Fields) (r : Result (Option Indicator)) (rest : StageRun (Indicator × Fields))
      → IsPassed r
      → normalized library now cfg fields r rest ≡ record rest {
        out = accepted fields r rest.out;
        metrics = replicate (failure r 0) parse_errors ++ rest.metrics;
      }
  step fields (ok none) rest h = refl
  step fields (ok (some i)) rest h = refl
  step fields (err e) rest h = ground (arith, h)

  stopped :
      (bad : Fields) (after : List Fields) (e : Error)
      → record_to_indicator library now cfg bad ≡ err e
      → (is_skippable library now cfg e.cls && cfg.skip_on_error) ≡ false
      → let r = run_normalize library now cfg (bad ∷ after) in
        (r.out ≡ [])
        × (r.closed ≡ true)
        × (r.raised ≡ some e)
        × (r.metrics ≡ (if is_skippable library now cfg e.cls then parse_errors ∷ [] else []))
  unfolding run_normalize
  stopped bad after e fails stops = elim (Bool-cases (is_skippable library now cfg e.cls)) [
    | inl skippable ↦ rw (fails, skippable, no_skip skippable stops) (refl, refl, refl, refl)
    | inr other ↦ rw (fails, other) (refl, refl, refl, refl)
  ]

  -- Records that are all normalised, left out or skipped: the indicators leave in the order of
  -- their records, each with its own record, one parse error is counted for each exception, and
  -- the stage ends normally with its output closed.
  pub run_normalize_complete :
      (inq : List Fields)
      → All (λ fields. IsPassed (record_to_indicator library now cfg fields)) inq
      → run_normalize library now cfg inq ≡ passed_run inq
  unfolding run_normalize accepted_all failures
  run_normalize_complete [] h = refl
  run_normalize_complete (fields ∷ inq) h =
      let r = record_to_indicator library now cfg fields in
      ap (normalized library now cfg fields r) (run_normalize_complete inq h.1)
      ∙ step fields r (passed_run inq) h.0
      ∙ ap
          (λ ms. record {
            out = accepted_all (fields ∷ inq);
            closed = true;
            raised = none;
            metrics = ms;
          })
          (counted r (failures inq))

  -- A record `bad` whose exception is not skipped, because it is no `ValueError` and no
  -- `PermanentError` or because the configuration does not skip, behind records that are all
  -- normalised, left out or skipped: those leave as if `bad` were not there, nothing behind it
  -- does, the exception leaves the stage, the output is closed all the same, and the exception is
  -- counted only if it is a `ValueError` or a `PermanentError`.
  pub run_normalize_raises :
      (before : List Fields) (bad : Fields) (after : List Fields) (e : Error)
      → All (λ fields. IsPassed (record_to_indicator library now cfg fields)) before
      → record_to_indicator library now cfg bad ≡ err e
      → (is_skippable library now cfg e.cls && cfg.skip_on_error) ≡ false
      → let r = run_normalize library now cfg (before ++ bad ∷ after) in
        (r.out ≡ accepted_all before)
        × (r.closed ≡ true)
        × (r.raised ≡ some e)
        × (r.metrics
            ≡ replicate (failures before) parse_errors
              ++ (if is_skippable library now cfg e.cls then parse_errors ∷ [] else []))
  unfolding run_normalize accepted_all failures
  run_normalize_raises [] bad after e h fails stops = stopped bad after e fails stops
  run_normalize_raises (fields ∷ before) bad after e h fails stops =
      let r = record_to_indicator library now cfg fields in
      let next = step fields r (run_normalize library now cfg (before ++ bad ∷ after)) h.0 in
      let (out, closed, raised, metrics) =
        run_normalize_raises before bad after e h.1 fails stops in
      rw next (
        ap (accepted fields r) out,
        closed,
        raised,
        ap (λ ms. replicate (failure r 0) parse_errors ++ ms) metrics
            ∙ counted_append r (failures before)
                (if is_skippable library now cfg e.cls then parse_errors ∷ [] else []),
      )
