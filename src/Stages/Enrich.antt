-- ===== src/Stages/Enrich.antt =====
-- core/stages/enrich.py
pub mod Survivors
use null.Prelude.{
  ℕ, ◌+◌, String, ◌≡◌, Bool, true, false, Option, none, some, List, [], ◌∷◌, length, refl,
}
use null.Errors.{Error, Result, ok, err}
use null.Models.{Indicator}
use null.Json.{Fields}
use null.Stages.Run.{StageRun, Metric, dropped, emit, counting, returned, raising}

-- `Enricher.enrich` in a given run: the indicator, `None`, or an exception.
abbrev pub Enricher : Type 0
Enricher = Indicator → Result (Option Indicator)

-- The loop over the enrichers, with its `break`.
unfoldable pub enrich_chain : List Enricher → Indicator → Result (Option Indicator)
enrich_chain [] current = ok (some current)
enrich_chain (enricher ∷ enrichers) current = elim (enricher current) [
  | err e ↦ err e
  | ok none ↦ ok none
  | ok (some next) ↦ enrich_chain enrichers next
]

unfoldable pub run_enrich :
    List Enricher → List (Indicator × Fields) → StageRun (Indicator × Fields)
unfolding enrich_chain
run_enrich enrichers [] = returned
run_enrich enrichers ((indicator, raw) ∷ inq) = elim (enrich_chain enrichers indicator) [
  | err e ↦ raising e
  | ok none ↦ counting (dropped "enricher" 1) (run_enrich enrichers inq)
  | ok (some current) ↦ emit (current, raw) (run_enrich enrichers inq)
]
