-- ===== src/Stages/Persist/Durable.antt =====
-- The durability fence: what leaves the persist stage has been stored, in order and in batches.
use null.Prelude.{
  ℕ, ◌+◌, ◌≤◌, ◌<◌, max, ◌≡◌, ◌⊎◌, refl, ap, ◌∙◌, none, some, List, [], ◌∷◌, ◌++◌, length, concat,
  All, length-append, append_assoc, arith, leb, not-leb→lt, inl, inr, true, Bool-cases,
  Option-cases,
}
use null.Models.{RunContext, Indicator}
use null.Errors.{Error}
use null.Stages.Run.{raising}
use null.Json.{Fields}
use null.Stages.Persist.{
  Pair, Publishing, PersistRun, stored_batch, end_of_input, observe, flush, persist_from,
  run_persist,
}

-- The observations of the inputs.
abbrev pub observed : RunContext → List (ℕ × Indicator × Fields) → List Pair
observed ctx [] = []
observed ctx ((now, indicator, raw) ∷ inq) = observe ctx now (indicator, raw) ∷ observed ctx inq

-- A batch is not empty and holds at most `batch_size` pairs, or one if that is 0.
abbrev pub FitsBatch : ℕ → List Pair → Type 0
FitsBatch batch_size batch = (0 < length batch) × (length batch ≤ max batch_size 1)

-- `r` stores `expected` or, if it raised, a beginning of it that `lost` completes.
pub record IsDurable (batch_size : ℕ) (expected : List Pair) (r : PersistRun) : Type 0 where
  pub out_stored : r.run.out ≡ concat r.stored
  pub lost : List Pair
  pub in_order : concat r.stored ++ lost ≡ expected
  pub complete : (lost ≡ []) ⊎ ((e : Error) × (r.run.raised ≡ some e))
  pub fits : All (FitsBatch batch_size) r.stored
  pub closed : r.run.closed ≡ true

abbrev raised_run : Error → PersistRun
raised_run e = record { run = raising e; stored = [] }

flush-stored :
    (publish : Publishing) (calls : ℕ) (p : Pair) (ps : List Pair) (rest : PersistRun)
    → publish calls (p ∷ ps) ≡ none
    → flush publish calls (p ∷ ps) rest ≡ stored_batch (p ∷ ps) rest
unfolding flush
flush-stored publish calls p ps rest e = rw (e, flush)

flush-raised :
    (publish : Publishing) (calls : ℕ) (p : Pair) (ps : List Pair) (rest : PersistRun) (e : Error)
    → publish calls (p ∷ ps) ≡ some e
    → flush publish calls (p ∷ ps) rest ≡ raised_run e
unfolding flush
flush-raised publish calls p ps rest e failed = rw (failed, flush)

stored_batch-IsDurable :
    (batch_size : ℕ) (p : Pair) (ps expected : List Pair) (rest : PersistRun)
    → length (p ∷ ps) ≤ max batch_size 1
    → IsDurable batch_size expected rest
    → IsDurable batch_size ((p ∷ ps) ++ expected) (stored_batch (p ∷ ps) rest)
stored_batch-IsDurable batch_size p ps expected rest small h = record {
  out_stored = ap (λ l. (p ∷ ps) ++ l) h.out_stored;
  lost = h.lost;
  in_order = append_assoc (p ∷ ps) (concat rest.stored) h.lost ∙ ap (λ l. (p ∷ ps) ++ l) h.in_order;
  complete = h.complete;
  fits = ((omega arith, small), h.fits);
  closed = h.closed;
}

raised_run-IsDurable :
    (batch_size : ℕ) (expected : List Pair) (e : Error)
    → IsDurable batch_size expected (raised_run e)
raised_run-IsDurable batch_size expected e = record {
  out_stored = refl;
  lost = expected;
  in_order = refl;
  complete = inr (e, refl);
  fits = tt;
  closed = refl;
}

module _ (publish : Publishing) (ctx : RunContext) (batch_size : ℕ) where
  flush-IsDurable :
      (calls : ℕ) (batch expected : List Pair) (rest : PersistRun)
      → length batch ≤ max batch_size 1
      → IsDurable batch_size expected rest
      → IsDurable batch_size (batch ++ expected) (flush publish calls batch rest)
  flush-IsDurable calls [] expected rest small h = unfold flush in h
  flush-IsDurable calls (p ∷ ps) expected rest small h =
      elim (Option-cases (publish calls (p ∷ ps))) [
        | inl stored ↦
            rw (flush-stored publish calls p ps rest stored)
              (stored_batch-IsDurable batch_size p ps expected rest small h)
        | inr (e, failed) ↦
            rw (flush-raised publish calls p ps rest e failed)
              (raised_run-IsDurable batch_size ((p ∷ ps) ++ expected) e)
      ]

  end-IsDurable : IsDurable batch_size [] end_of_input
  end-IsDurable = record {
    out_stored = refl;
    lost = [];
    in_order = refl;
    complete = inl refl;
    fits = tt;
    closed = refl;
  }

  persist_from-IsDurable :
      (calls : ℕ) (batch : List Pair) (inq : List (ℕ × Indicator × Fields))
      → length batch < max batch_size 1
      → IsDurable batch_size
          (batch ++ observed ctx inq)
          (persist_from publish ctx batch_size calls batch inq)
  unfolding persist_from
  persist_from-IsDurable calls batch [] small =
      flush-IsDurable calls batch [] end_of_input (omega arith) end-IsDurable
  persist_from-IsDurable calls batch ((now, indicator, raw) ∷ inq) small =
      let pair = observe ctx now (indicator, raw) in
      let batch' = batch ++ pair ∷ [] in
      let grown : length batch' ≡ length batch + 1 =
        omega (arith, length-append batch (pair ∷ [])) in
      rw (← append_assoc batch (pair ∷ []) (observed ctx inq))
        (elim (Bool-cases (leb batch_size (length batch'))) [
          | inl due ↦ rw due (
              flush-IsDurable calls batch' (observed ctx inq)
                (persist_from publish ctx batch_size (calls + 1) [] inq) (omega arith)
                (persist_from-IsDurable (calls + 1) [] inq (omega arith)))
          | inr more ↦ rw more (
              persist_from-IsDurable calls batch' inq
                (omega (arith, not-leb→lt batch_size (length batch') more)))
        ])

  -- However `publish` fails: every pair that left the stage is in a batch that was stored before,
  -- and nothing else was stored; the stored batches are, in order and with no gap, a beginning of
  -- the inputs, and all of them if the stage ended normally; no batch is empty or longer than
  -- `batch_size`, or than one if that is 0; and the output is closed.
  pub run_persist-IsDurable :
      (inq : List (ℕ × Indicator × Fields))
      → IsDurable batch_size (observed ctx inq) (run_persist publish ctx batch_size inq)
  unfolding run_persist
  run_persist-IsDurable inq = persist_from-IsDurable 0 [] inq (omega arith)
