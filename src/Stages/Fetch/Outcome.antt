-- ===== src/Stages/Fetch/Outcome.antt =====
-- What `run_fetch` has passed on when it ends, and whether it closed its queue.
use null.Prelude.{
  ◌≡◌, ◌⊎◌, refl, ap, ◌∙◌, Bool, true, false, Option, none, some, List, [], ◌∷◌, ◌++◌, arith, inl,
  inr,
}
use null.Errors.{Error, ok, Result-cases}
use null.Models.{RawPayload, RunContext}
use null.Json.{Fields}
use null.Stages.Run.{StageRun}
use null.Stages.Fetch.{Archive, archived, Connector, with_watermark, fetch_from, run_fetch}

abbrev pub is_none : Option Error → Bool
is_none none = true
is_none (some e) = false

-- The payloads of a connector.
unfoldable pub payloads_of : List (Fields × RawPayload) → List RawPayload
payloads_of [] = []
payloads_of ((w, payload) ∷ yields) = payload ∷ payloads_of yields

archived-same :
    (archive : Option Archive) (ctx : RunContext) (payload : RawPayload) {ctx' : RunContext}
    → archived archive ctx payload ≡ ok ctx'
    → (ctx'.run_id ≡ ctx.run_id) × (ctx'.source_id ≡ ctx.source_id)
archived-same none ctx payload h = (ground arith, ground arith)
archived-same (some put) ctx payload h = (ground arith, ground arith)

-- What the loop of `run_fetch` comes to.
abbrev FetchOutcome :
    List (Fields × RawPayload) → Fields → RunContext → StageRun RawPayload × RunContext → Type 0
FetchOutcome yields left ctx (r, ctx') =
    (r.closed ≡ is_none r.raised)
    × ((rest : List RawPayload) × (r.out ++ rest ≡ payloads_of yields)
        × (((rest ≡ []) × (ctx'.watermark ≡ left)) ⊎ (r.closed ≡ false)))
    × (ctx'.run_id ≡ ctx.run_id)
    × (ctx'.source_id ≡ ctx.source_id)

fetch_from-FetchOutcome :
    (yields : List (Fields × RawPayload)) (left : Fields) (fails : Option Error)
    (archive : Option Archive) (ctx : RunContext)
    → FetchOutcome yields left ctx (fetch_from yields left fails archive ctx)
unfolding fetch_from payloads_of
fetch_from-FetchOutcome [] left none archive ctx = (refl, ([], refl, inl (refl, refl)), refl, refl)
fetch_from-FetchOutcome [] left (some e) archive ctx =
    (refl, ([], refl, inl (refl, refl)), refl, refl)
fetch_from-FetchOutcome ((w, payload) ∷ yields) left fails archive ctx =
    elim (Result-cases (archived archive (with_watermark w ctx) payload)) [
      | inl (ctx', stored) ↦
          let (closed, (rest, out, ends), run, source) =
            fetch_from-FetchOutcome yields left fails archive ctx' in
          let (same_run, same_source) =
            archived-same archive (with_watermark w ctx) payload stored in
          rw (stored, fetch_from)
            (closed, (rest, ap (λ l. payload ∷ l) out, ends), run ∙ same_run, source ∙ same_source)
      | inr (e, failed) ↦
          rw (failed, fetch_from)
            (refl, (payloads_of ((w, payload) ∷ yields), refl, inr refl), refl, refl)
    ]

-- The stage passes on a prefix of the payloads, in their order, and all of them unless an exception
-- left it. It closes its output exactly if it ends normally: an exception of the connector or of
-- the archive leaves the queue open; and then the watermark is the one that the connector left. The
-- ids in the context do not change.
pub run_fetch_lem :
    (connector : Connector) (archive : Option Archive) (ctx : RunContext)
    → let (r, ctx') = run_fetch connector archive ctx in
      (r.closed ≡ is_none r.raised)
      × ((rest : List RawPayload) × (r.out ++ rest ≡ payloads_of (connector ctx).yields)
          × (((rest ≡ []) × (ctx'.watermark ≡ (connector ctx).left)) ⊎ (r.closed ≡ false)))
      × (ctx'.run_id ≡ ctx.run_id)
      × (ctx'.source_id ≡ ctx.source_id)
unfolding run_fetch
run_fetch_lem connector archive ctx =
    let f = connector ctx in fetch_from-FetchOutcome f.yields f.left f.fails archive ctx
