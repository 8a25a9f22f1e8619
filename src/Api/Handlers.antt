-- ===== src/Api/Handlers.antt =====
-- The handlers, and what the application makes of their replies.
use null.Prelude.{
  ℕ, pos, String, Bool, true, not, Option, none, some, List, [], ◌∷◌, ◌++◌, if◌then◌else◌,
}
use null.Dict.{Dict, lookup, insert}
use null.Errors.{Result, ok, err, is_exception}
use null.Text.{Text, codes, text_eq, lower}
use null.Json.{bool, str}
use null.State.{SourceRow}
use null.Registry
use null.Registry.{SourceConfig, all_sources}
use null.Repositories.{recent, get_feed_run, list_dead_letters, mark_replayed, lookup_rows}
use null.Api.Replies.{
  Reply, unauthorized, raise, answer, plain, json, bind, source_view, run_view, run_detail,
  indicator_view, letter_view, object, array, text, number,
}
use null.Api.{App, Request, Platform, require, session, or_default, limit_of}

abbrev pub not_found : Reply
not_found = answer 404 (json (object (("error", text "not_found") ∷ [])))

-- `{r.id: r for r in rows}`
unfoldable pub rows_by_id : List SourceRow → Dict SourceRow → Dict SourceRow
unfolding insert
rows_by_id [] d = d
rows_by_id (row ∷ rows) d = rows_by_id rows (insert row.id row d)

abbrev pub codes_of : Option String → Option Text
codes_of none = none
codes_of (some s) = some (codes s)

module _ (platform : Platform) (app : App) (request : Request) where
  open platform use {
    run_order, letter_order, indicator_order, id_order, uuid_text, parse_uuid, isoformat,
    model_dump, latest_metrics, class_name,
  }

  -- `request.query_params.get("source")`
  abbrev pub source_param : Option String
  source_param = (lookup "source" request.query)

  unfoldable pub healthz : Reply
  healthz = answer 200 (plain (codes "ok"))

  unfoldable pub readyz : Reply
  readyz = elim app.outage [
    | none ↦ answer 200 (plain (codes "ready"))
    | some e ↦
        if is_exception e.cls
        then answer 503 (plain (codes "not ready: " ++ codes e.message))
        else raise e
  ]

  unfoldable pub metrics : Reply
  metrics = answer 200 (plain latest_metrics)

  unfoldable pub list_sources : Reply
  unfolding require rows_by_id lookup
  list_sources = require app request "read" unauthorized λ _. session app (
      let rows = rows_by_id (id_order app.sources) [] in
      answer 200 (
        json (
          array (λ (cfg : SourceConfig). source_view (lookup cfg.id rows) cfg)
            (all_sources app.registry))))

  unfoldable pub get_source : String → Reply
  unfolding require
  get_source source_id = require app request "read" unauthorized λ _.
      elim (Registry.get_source source_id app.registry) [
        | err e ↦ not_found
        | ok cfg ↦ answer 200 (json (model_dump cfg))
      ]

  unfoldable pub list_runs : Reply
  unfolding require limit_of recent
  list_runs = require app request "read" unauthorized λ _. bind (limit_of request "50" 500) λ limit.
      session app (
        bind (recent run_order source_param limit app.runs)
          λ rows. answer 200 (json (array (run_view uuid_text isoformat) rows)))

  unfoldable pub get_run : Text → Reply
  unfolding require get_feed_run
  get_run run_id = require app request "read" unauthorized λ _. bind (parse_uuid run_id) λ id.
      session app (elim (get_feed_run id app.runs) [
        | none ↦ not_found
        | some row ↦ answer 200 (json (run_detail uuid_text isoformat row))
      ])

  unfoldable pub lookup_indicators : Reply
  unfolding require limit_of lookup_rows
  lookup_indicators = require app request "read" unauthorized λ _.
      bind (limit_of request "100" 1000) λ limit. session app (
        bind
          (lookup_rows indicator_order (codes_of (lookup "type" request.query))
            (codes_of (lookup "value" request.query)) limit app.indicators)
          λ rows. answer 200 (json (array (indicator_view uuid_text isoformat) rows)))

  -- `only_open`
  unfoldable pub only_open : Bool
  unfolding lookup lower text_eq
  only_open = not (
      text_eq (lower (codes (or_default "true" (lookup "unreplayed" request.query))))
        (codes "false"))

  abbrev pub listed_letters : Bool → Reply
  listed_letters only = session app (
      bind (list_dead_letters letter_order source_param only (pos 200) app.dead_letters)
        λ rows. answer 200 (json (array (letter_view uuid_text isoformat class_name) rows)))

  unfoldable pub list_dlq : Reply
  unfolding require only_open list_dead_letters
  list_dlq = require app request "read" unauthorized λ _. listed_letters only_open

  abbrev pub replayed : ℕ → Reply
  replayed id =
      answer 200
        (json (object (("id", number id) ∷ ("replayed_at", str (isoformat request.now)) ∷ [])))

  abbrev pub replay_letter : ℕ → Reply × App
  replay_letter id = elim app.outage [
    | some e ↦ (raise e, app)
    | none ↦
        (replayed id, record app { dead_letters = mark_replayed id request.now app.dead_letters })
  ]

  unfoldable pub replay_dlq : ℕ → Reply × App
  unfolding require mark_replayed
  replay_dlq id =
      require app request "trigger" (λ scope. (unauthorized scope, app)) λ _. replay_letter id

  abbrev queued_reply : SourceConfig → Text → Reply
  queued_reply cfg job_id = answer 200 (
      json
        (object (("queued", bool true) ∷ ("source_id", text cfg.id) ∷ ("job_id", str job_id) ∷ [])))

  abbrev enqueue_job : SourceConfig → (String → Result Text) → Reply × App
  enqueue_job cfg enqueuer = elim (enqueuer cfg.id) [
    | err e ↦ (raise e, app)
    | ok job_id ↦ (queued_reply cfg job_id, record app { queued = app.queued ++ cfg.id ∷ [] })
  ]

  unfoldable pub trigger_run : String → Reply × App
  unfolding require
  trigger_run source_id =
      require app request "trigger" (λ scope. (unauthorized scope, app))
        λ _. elim (Registry.get_source source_id app.registry) [
          | err e ↦ (not_found, app)
          | ok cfg ↦ elim app.enqueue [
            | none ↦ (answer 503 (json (object (("error", text "queue_unavailable") ∷ []))), app)
            | some enqueuer ↦ enqueue_job cfg enqueuer
          ]
        ]
