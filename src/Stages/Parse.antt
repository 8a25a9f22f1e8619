-- ===== src/Stages/Parse.antt =====
-- core/stages/parse.py
pub mod Records
use null.Prelude.{Option, none, some, List, [], ◌∷◌, if◌then◌else◌}
use null.Errors.{Error, is_permanent}
use null.Models.{RawPayload}
use null.Json.{Fields}
use null.Stages.Run.{StageRun, parse_errors, emit, counting, returned, raising}

-- `Parser.parse` on one payload: the records that it yields, and the exception that ends it, if one
-- does.
abbrev pub Parser : Type 0
Parser = RawPayload → List Fields × Option Error

-- The records of one payload are put into the output queue, and then the rest of the run.
abbrev pub emit_all {ℓ} : {B : Type ℓ} → List B → StageRun B → StageRun B
emit_all [] r = r
emit_all (b ∷ bs) r = emit b (emit_all bs r)

-- `except PermanentError: PARSE_ERRORS.inc(); raise`
abbrev pub parse_failed {ℓ} : {B : Type ℓ} → Error → StageRun B
parse_failed e = if is_permanent e.cls then counting parse_errors (raising e) else raising e

-- After the records of one payload: the next payloads, or the exception.
abbrev pub and_then : Option Error → StageRun Fields → StageRun Fields
and_then none rest = rest
and_then (some e) rest = parse_failed e

unfoldable pub run_parse : Parser → List RawPayload → StageRun Fields
run_parse parser [] = returned
run_parse parser (payload ∷ inq) =
    let (records, raised) = parser payload in
    emit_all records (and_then raised (run_parse parser inq))
