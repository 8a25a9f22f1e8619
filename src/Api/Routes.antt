-- ===== src/Api/Routes.antt =====
-- The routes of `build_app`, with the handler of `_Unauthorized`. A request that matches none of
-- them does not reach this code.
use null.Prelude.{ℕ, String, [], ◌∷◌}
use null.Text.{Text, codes}
use null.Api.Replies.{Response, Reply, respond, unauthorized, raise, plain, json, object, text}
use null.Api.{App, Request, Platform}
use null.Api.Handlers.{
  healthz, readyz, metrics, list_sources, get_source, list_runs, get_run, lookup_indicators,
  list_dlq, replay_dlq, trigger_run,
}

-- A route with its path parameter.
pub data Route : Type 0 where
  to_healthz to_readyz to_metrics to_sources to_runs to_indicators to_dlq : Route
  to_source to_trigger : String → Route
  to_run : Text → Route
  to_replay : ℕ → Route

-- `_unauthorized_handler`
unfoldable pub unauthorized_handler : String → Response
unauthorized_handler scope = record {
  status = 401;
  body = json (object (("error", text "unauthorized") ∷ ("required_scope", text scope) ∷ []));
  headers = ("WWW-Authenticate", "Bearer") ∷ [];
}

-- What is sent for a reply: an exception that no handler takes is Starlette's response 500.
unfoldable pub serve : Reply → Response
unfolding unauthorized_handler
serve (respond response) = response
serve (unauthorized scope) = unauthorized_handler scope
serve (raise e) = record {
  status = 500;
  body = plain (codes "Internal Server Error");
  headers = [];
}

module _ (platform : Platform) (app : App) (request : Request) where
  unfoldable pub dispatch : Route → Reply × App
  unfolding healthz readyz metrics list_sources get_source list_runs get_run lookup_indicators
      list_dlq replay_dlq trigger_run
  dispatch to_healthz = (healthz platform app request, app)
  dispatch to_readyz = (readyz platform app request, app)
  dispatch to_metrics = (metrics platform app request, app)
  dispatch to_sources = (list_sources platform app request, app)
  dispatch (to_source source_id) = (get_source platform app request source_id, app)
  dispatch (to_trigger source_id) = trigger_run platform app request source_id
  dispatch to_runs = (list_runs platform app request, app)
  dispatch (to_run run_id) = (get_run platform app request run_id, app)
  dispatch to_indicators = (lookup_indicators platform app request, app)
  dispatch to_dlq = (list_dlq platform app request, app)
  dispatch (to_replay id) = replay_dlq platform app request id
