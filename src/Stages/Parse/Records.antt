-- ===== src/Stages/Parse/Records.antt =====
-- Which records leave the parse stage.
use null.Prelude.{
  ◌≡◌, refl, ap, ◌∙◌, true, none, some, List, [], ◌∷◌, ◌++◌, All, if◌then◌else◌, Bool-cases, inl,
  inr,
}
use null.Errors.{Error, is_permanent}
use null.Models.{RawPayload}
use null.Json.{Fields}
use null.Stages.Run.{StageRun, parse_errors, emit}
use null.Stages.Parse.{Parser, parse_failed, and_then, emit_all, run_parse}

-- The records of the payloads, one payload after the other.
abbrev pub records_of : Parser → List RawPayload → List Fields
records_of parser [] = []
records_of parser (payload ∷ inq) = (parser payload).0 ++ records_of parser inq

-- The parser ends normally on each payload.
abbrev pub NoErrors : Parser → List RawPayload → Type 0
NoErrors parser = All (λ payload. (parser payload).1 ≡ none)

pub emit_all_out {ℓ} :
    {B : Type ℓ} (bs : List B) (r : StageRun B) → emit_all bs r ≡ record r { out = bs ++ r.out }
emit_all_out [] r = refl
emit_all_out (b ∷ bs) r = ap (emit b) (emit_all_out bs r)

-- Where the parser ends normally on each payload, the records of all payloads leave in order,
-- nothing is counted, the output is closed and the stage ends normally.
pub run_parse_complete :
    (parser : Parser) (inq : List RawPayload)
    → NoErrors parser inq
    → run_parse parser inq
      ≡ record { out = records_of parser inq; closed = true; raised = none; metrics = [] }
unfolding run_parse
run_parse_complete parser [] h = refl
run_parse_complete parser (payload ∷ inq) h =
    let records = (parser payload).0 in
    ap (λ o. emit_all records (and_then o (run_parse parser inq))) h.0
    ∙ ap (emit_all records) (run_parse_complete parser inq h.1)
    ∙ emit_all_out records
        (record { out = records_of parser inq; closed = true; raised = none; metrics = [] })

-- Where the parser raises on `bad`, the records of the payloads before it leave in order, then those
-- of `bad` that came before the exception; the exception leaves the stage, the output is closed all
-- the same, and a parse error is counted if the exception is permanent.
pub run_parse_raises :
    (parser : Parser) (before : List RawPayload) (bad : RawPayload) (after : List RawPayload)
    (e : Error)
    → NoErrors parser before
    → (parser bad).1 ≡ some e
    → run_parse parser (before ++ bad ∷ after) ≡ record {
      out = records_of parser (before ++ bad ∷ []);
      closed = true;
      raised = some e;
      metrics = if is_permanent e.cls then parse_errors ∷ [] else [];
    }
unfolding run_parse
run_parse_raises parser [] bad after e h fails =
    ap (λ o. emit_all (parser bad).0 (and_then o (run_parse parser after))) fails
    ∙ emit_all_out (parser bad).0 (parse_failed e)
    ∙ elim (Bool-cases (is_permanent e.cls)) [ inl p ↦ rw p refl | inr q ↦ rw q refl ]
run_parse_raises parser (payload ∷ before) bad after e h fails =
    let records = (parser payload).0 in
    ap (λ o. emit_all records (and_then o (run_parse parser (before ++ bad ∷ after)))) h.0
    ∙ ap (emit_all records) (run_parse_raises parser before bad after e h.1 fails)
    ∙ emit_all_out records (record {
      out = records_of parser (before ++ bad ∷ []);
      closed = true;
      raised = some e;
      metrics = if is_permanent e.cls then parse_errors ∷ [] else [];
    })
