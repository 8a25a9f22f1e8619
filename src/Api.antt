-- ===== src/Api.antt =====
-- obs/http_app.py: the handlers of the HTTP API. Starlette's routing, `str` of a UUID, its parsing,
-- `isoformat`, `model_dump` and the text of the metrics are parameters.
pub mod Auth
pub mod Replies
pub mod Handlers
pub mod Routes
pub mod Guarded
pub mod Limits
pub mod Replay
mod Tests
use null.Prelude.{
  ℕ, ℤ, pos, negsuc, String, str_append, Bool, true, false, not, Option, none, some, List, [], ◌∷◌,
  map, min, if◌then◌else◌,
}
use null.Dict.{Dict, lookup, insert}
use null.Errors.{Error, Result, ok, err, ◌>>=◌, is_exception}
use null.Text.{Text, codes, text_eq, lower}
use null.Json.{Value, nothing, bool, int, str, dict, Fields, end}
use null.Json.Str.{to_int}
use null.State.{SourceRow, FeedRunRow}
use null.Registry.{SourceConfig, SourceRegistry, all_sources, get_source}
use null.Repositories.Upsert.{IndicatorRow}
use null.Repositories.Queries.{Ordering}
use null.Repositories.{
  DeadLetter, recent, get_feed_run, list_dead_letters, mark_replayed, lookup_rows,
}
use Auth.{Principal, TokenStore, has, authenticate}
use Replies.{
  Reply, respond, unauthorized, raise, answer, plain, json, bind, source_view, run_view, run_detail,
  indicator_view, letter_view, object, array, text,
}

pub record Request : Type 0 where
  pub authorization : Option Text
  pub query : Dict String
  pub now : ℕ

-- `request.app.state`, and the database with the exception of an outage, if there is one.
pub record App : Type 0 where
  pub registry : SourceRegistry
  pub tokens : TokenStore
  pub enqueue : Option (String → Result Text)
  pub outage : Option Error
  pub sources : List SourceRow
  pub runs : List FeedRunRow
  pub indicators : List IndicatorRow
  pub dead_letters : List DeadLetter
  -- the ids of the sources for which a job was enqueued
  pub queued : List String

-- What Starlette, pydantic, uuid, datetime and the database do for the handlers.
pub record Platform : Type 0 where
  pub run_order : Ordering FeedRunRow
  pub letter_order : Ordering DeadLetter
  pub indicator_order : Ordering IndicatorRow
  pub id_order : List SourceRow → List SourceRow
  pub uuid_text : ℕ → Text
  pub parse_uuid : Text → Result ℕ
  pub isoformat : ℕ → Text
  pub model_dump : SourceConfig → Value
  pub latest_metrics : Text
  pub class_name : Error → String

-- `_require`, and then the rest of a handler.
unfoldable pub require {ℓ} :
    {A : Type ℓ} → App → Request → String → (String → A) → (Principal → A) → A
unfolding has authenticate
require app request scope refused granted = elim (authenticate app.tokens request.authorization) [
  | none ↦ refused scope
  | some principal ↦ if has principal scope then granted principal else refused scope
]

-- `async with db_session()`
abbrev pub session : App → Reply → Reply
session app rest = elim app.outage [ none ↦ rest | some e ↦ raise e ]

abbrev pub min_int : ℤ → ℕ → ℤ
min_int (pos n) bound = pos (min n bound)
min_int (negsuc n) bound = negsuc n

abbrev pub or_default : String → Option String → String
or_default default none = default
or_default default (some s) = s

-- `min(int(request.query_params.get("limit", default)), bound)`
unfoldable pub limit_of : Request → String → ℕ → Result ℤ
unfolding lookup to_int
limit_of request default bound =
    to_int (str (codes (or_default default (lookup "limit" request.query)))) >>= λ n.
    ok (min_int n bound)
