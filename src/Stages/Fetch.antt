-- ===== src/Stages/Fetch.antt =====
-- core/stages/fetch.py
pub mod Outcome
use null.Prelude.{String, true, false, Option, none, some, List, [], ◌∷◌, length}
use null.Errors.{Error, Result, ok, err}
use null.Json.{Fields}
use null.Models.{RawPayload, RunContext}
use null.Stages.Run.{StageRun, fetch_bytes, records_in, emit, counting}

-- `RawArchive.put`, if an archive is configured: the URI, or an exception.
abbrev pub Archive : Type 0
Archive = RunContext → RawPayload → Result String

abbrev pub archived : Option Archive → RunContext → RawPayload → Result RunContext
archived none ctx payload = ok ctx
archived (some put) ctx payload = elim (put ctx payload) [
  | ok uri ↦ ok (record ctx { raw_uri = some uri })
  | err e ↦ err e
]

-- What a connector does while the stage iterates over it: the payloads, each with the watermark that
-- stands in the context once it is yielded, the watermark at the end, and the exception, if any.
pub record Fetching : Type 0 where
  pub yields : List (Fields × RawPayload)
  pub left : Fields
  pub fails : Option Error

-- `connector.fetch(ctx)`, which changes the watermark of the context.
abbrev pub Connector : Type 0
Connector = RunContext → Fetching

abbrev pub with_watermark : Fields → RunContext → RunContext
with_watermark w ctx = record ctx { watermark = w }

-- The loop and what follows it. The `close` stands behind the loop, not in a `finally`.
unfoldable pub fetch_from :
    List (Fields × RawPayload)
    → Fields
    → Option Error
    → Option Archive
    → RunContext
    → StageRun RawPayload × RunContext
fetch_from [] left none archive ctx =
    (record { out = []; closed = true; raised = none; metrics = [] }, with_watermark left ctx)
fetch_from [] left (some e) archive ctx =
    (record { out = []; closed = false; raised = some e; metrics = [] }, with_watermark left ctx)
fetch_from ((w, payload) ∷ yields) left fails archive ctx =
    elim (archived archive (with_watermark w ctx) payload) [
      | err e ↦ (
        record {
          out = [];
          closed = false;
          raised = some e;
          metrics = fetch_bytes (length payload.body) ∷ records_in ∷ [];
        },
        with_watermark w ctx,
      )
      | ok ctx' ↦
          let (rest, ctx'') = fetch_from yields left fails archive ctx' in
          (
            counting (fetch_bytes (length payload.body)) (counting records_in (emit payload rest)),
            ctx'',
          )
    ]

-- `run_fetch`
unfoldable pub run_fetch :
    Connector → Option Archive → RunContext → StageRun RawPayload × RunContext
unfolding fetch_from
run_fetch connector archive ctx =
    let f = connector ctx in fetch_from f.yields f.left f.fails archive ctx
