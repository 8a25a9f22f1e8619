-- ===== src/Stages/Enrich/Survivors.antt =====
-- Which indicators leave the enrich stage.
use null.Prelude.{ℕ, ◌+◌, ◌≡◌, refl, Option, none, some, List, [], ◌∷◌, ◌++◌, length, arith, true}
use null.Errors.{Error, Result, ok, err}
use null.Models.{Indicator}
use null.Json.{Fields}
use null.Stages.Run.{Metric, dropped}
use null.Stages.Enrich.{Enricher, enrich_chain, run_enrich}

-- What the stage makes of one input: nothing where an enricher drops it.
abbrev pub survivor : Indicator → Fields → Result (Option Indicator) → List (Indicator × Fields)
survivor i raw (ok (some j)) = (j, raw) ∷ []
survivor i raw (ok none) = []
survivor i raw (err e) = []

unfoldable pub survivors : List Enricher → List (Indicator × Fields) → List (Indicator × Fields)
survivors enrichers [] = []
survivors enrichers ((i, raw) ∷ inq) =
    survivor i raw (enrich_chain enrichers i) ++ survivors enrichers inq

-- The number of indicators that were counted as dropped.
abbrev pub dropped_count : List Metric → ℕ
dropped_count [] = 0
dropped_count (dropped _ n ∷ ms) = n + dropped_count ms
dropped_count (_ ∷ ms) = dropped_count ms

-- No enricher raises on this indicator.
abbrev NoError : Result (Option Indicator) → Type 0
NoError (ok _) = Unit
NoError (err _) = ⊥

abbrev pub NoErrors : List Enricher → List (Indicator × Fields) → Type 0
NoErrors enrichers [] = Unit
NoErrors enrichers ((i, raw) ∷ inq) = NoError (enrich_chain enrichers i) × NoErrors enrichers inq

-- Where no enricher raises: the survivors leave in input order, each with its own record; what the
-- chain does not return is counted as dropped, once; nothing is lost or made up; the output is
-- closed and the stage ends normally.
pub run_enrich_complete :
    (enrichers : List Enricher) (inq : List (Indicator × Fields))
    → NoErrors enrichers inq
    → let r = run_enrich enrichers inq in
      (r.out ≡ survivors enrichers inq)
      × (length r.out + dropped_count r.metrics ≡ length inq)
      × (r.closed ≡ true)
      × (r.raised ≡ none)
unfolding run_enrich survivors
run_enrich_complete enrichers [] h = (refl, omega arith, refl, refl)
run_enrich_complete enrichers ((i, raw) ∷ inq) h =
    let (out, count, closed, raised) = run_enrich_complete enrichers inq h.1 in ground arith

-- Where an enricher raises on the item `bad`, what came before it leaves as above, nothing behind
-- it does, the exception leaves the stage, and the output is closed all the same.
pub run_enrich_raises :
    (enrichers : List Enricher) (before : List (Indicator × Fields)) (bad : Indicator)
    (raw : Fields) (after : List (Indicator × Fields)) (e : Error)
    → NoErrors enrichers before
    → enrich_chain enrichers bad ≡ err e
    → let r = run_enrich enrichers (before ++ (bad, raw) ∷ after) in
      (r.out ≡ survivors enrichers before) × (r.closed ≡ true) × (r.raised ≡ some e)
unfolding run_enrich survivors
run_enrich_raises enrichers [] bad raw after e h fails = ground arith
run_enrich_raises enrichers ((i, r) ∷ before) bad raw after e h fails =
    let (out, closed, raised) = run_enrich_raises enrichers before bad raw after e h.1 fails in
    ground arith
