-- ===== src/Pipeline/Tasks/Returned.antt =====
-- What a stage has put out that ended without an exception.
use null.Prelude.{
  inl, inr, ℕ, ◌≡◌, refl, ap, ◌∙◌, Option, none, some, List, [], ◌∷◌, ◌++◌, arith, append-nil,
}
use null.Errors.{Error, Result, ok, err}
use null.Hashing.{TextLibrary}
use null.Json.{Fields}
use null.Models.{RawPayload, RunContext, Indicator}
use null.Stages.Dedup.{RedisBloom, run_dedup}
use null.Stages.Enrich.{Enricher, run_enrich}
use null.Stages.Enrich.Survivors.{survivors}
use null.Stages.Fetch.{Archive, Connector, run_fetch}
use null.Stages.Fetch.Outcome.{payloads_of, run_fetch_lem}
use null.Stages.Normalize.{NormalizeConfig, record_to_indicator, normalized, run_normalize}
use null.Stages.Normalize.Skipping.{accepted, accepted_all}
use null.Stages.Parse.{Parser, emit_all, and_then, run_parse}
use null.Stages.Parse.Records.{records_of, emit_all_out}
use null.Stages.Run.{StageRun}

pub run_fetch-returned :
    (connector : Connector) (archive : Option Archive) (ctx : RunContext)
    → (run_fetch connector archive ctx).0.raised ≡ none
    → ((run_fetch connector archive ctx).0.out ≡ payloads_of (connector ctx).yields)
      × ((run_fetch connector archive ctx).1.watermark ≡ (connector ctx).left)
run_fetch-returned connector archive ctx h =
    let (closed, (rest, out, ends), _, _) = run_fetch_lem connector archive ctx in
    elim ends [
      | inl (none_left, moved) ↦
          (ground (arith, none_left, append-nil (run_fetch connector archive ctx).0.out), moved)
      | inr opened ↦ ground (arith, h, closed, opened)
    ]

parse_step :
    (records : List Fields) (raised : Option Error) (rest : StageRun Fields)
    → (emit_all records (and_then raised rest)).raised ≡ none
    → (rest.raised ≡ none) × ((emit_all records (and_then raised rest)).out ≡ records ++ rest.out)
parse_step records none rest h = rw emit_all_out (rw emit_all_out at h, refl)
parse_step records (some e) rest h = ground (arith, rw emit_all_out at h)

pub run_parse-returned :
    (parser : Parser) (inq : List RawPayload)
    → (run_parse parser inq).raised ≡ none
    → (run_parse parser inq).out ≡ records_of parser inq
unfolding run_parse
run_parse-returned parser [] h = refl
run_parse-returned parser (payload ∷ inq) h =
    let (raised, out) = parse_step (parser payload).0 (parser payload).1 (run_parse parser inq) h in
    out ∙ ap (λ (l : List Fields). (parser payload).0 ++ l) (run_parse-returned parser inq raised)

pub run_enrich-returned :
    (enrichers : List Enricher) (inq : List (Indicator × Fields))
    → (run_enrich enrichers inq).raised ≡ none
    → (run_enrich enrichers inq).out ≡ survivors enrichers inq
unfolding run_enrich survivors
run_enrich-returned enrichers [] h = refl
run_enrich-returned enrichers ((i, raw) ∷ inq) h = ground (arith, run_enrich-returned enrichers inq)

pub run_dedup-returned :
    (bloom : Option (Option RedisBloom)) (inq : List (Indicator × Fields))
    → (run_dedup bloom inq).raised ≡ none
    → (run_dedup bloom inq).out ≡ inq
unfolding run_dedup
run_dedup-returned bloom [] h = refl
run_dedup-returned bloom ((i, raw) ∷ inq) h = ground (arith, run_dedup-returned bloom inq)

module _ (library : TextLibrary) (now : ℕ) (cfg : NormalizeConfig) where
  normalize_step :
      (fields : Fields) (r : Result (Option Indicator)) (rest : StageRun (Indicator × Fields))
      → (normalized library now cfg fields r rest).raised ≡ none
      → (rest.raised ≡ none)
        × ((normalized library now cfg fields r rest).out ≡ accepted fields r rest.out)
  normalize_step fields (ok none) rest h = (h, refl)
  normalize_step fields (ok (some i)) rest h = (h, refl)
  normalize_step fields (err e) rest h = ground (arith, h)

  pub run_normalize-returned :
      (inq : List Fields)
      → (run_normalize library now cfg inq).raised ≡ none
      → (run_normalize library now cfg inq).out ≡ accepted_all library now cfg inq
  unfolding run_normalize accepted_all
  run_normalize-returned [] h = refl
  run_normalize-returned (fields ∷ inq) h =
      let r = record_to_indicator library now cfg fields in
      let (raised, out) = normalize_step fields r (run_normalize library now cfg inq) h in
      out ∙ ap (accepted fields r) (run_normalize-returned inq raised)
