-- ===== src/Api/Replies.antt =====
-- The replies of the handlers and the JSON objects in them.
use null.Prelude.{ℕ, pos, String, Option, none, some, List, [], ◌∷◌}
use null.Errors.{Error, Result, ok, err}
use null.Text.{Text, codes}
use null.Enums.{run_state_value}
use null.Json.{Value, nothing, bool, int, str, list, dict, Items, nil, cons, Fields, end, field}
use null.State.{SourceRow, FeedRunRow}
use null.Registry.{SourceConfig}
use null.Repositories.{DeadLetter}
use null.Repositories.Upsert.{IndicatorRow}

pub data Body : Type 0 where
  plain : Text → Body
  json : Value → Body

pub record Response : Type 0 where
  pub status : ℕ
  pub body : Body
  pub headers : List (String × String)

-- How a handler ends: with a response, with `_Unauthorized`, or with another exception.
pub data Reply : Type 0 where
  respond : Response → Reply
  unauthorized : String → Reply
  raise : Error → Reply

abbrev pub answer : ℕ → Body → Reply
answer status body = respond (record { status = status; body = body; headers = [] })

-- An exception in a handler.
abbrev pub bind {ℓ} : {A : Type ℓ} → Result A → (A → Reply) → Reply
bind (err e) rest = raise e
bind (ok a) rest = rest a

abbrev pub fields : List (String × Value) → Fields
fields [] = end
fields ((key, v) ∷ rest) = field key v (fields rest)

abbrev pub object : List (String × Value) → Value
object members = dict (fields members)

unfoldable pub items {ℓ} : {A : Type ℓ} → (A → Value) → List A → Items
items view [] = nil
items view (a ∷ rest) = cons (view a) (items view rest)

-- A JSON array of the views of some rows.
abbrev pub array {ℓ} : {A : Type ℓ} → (A → Value) → List A → Value
array view rows = list (items view rows)

abbrev pub text : String → Value
text s = str (codes s)

abbrev pub number : ℕ → Value
number n = int (pos n)

abbrev pub optional {ℓ} : {A : Type ℓ} → (A → Value) → Option A → Value
optional view none = nothing
optional view (some a) = view a

abbrev pub texts : List Text → Value
texts tags = array str tags

-- `(row.watermark if row else None) or {}`
abbrev pub watermark_of : Option SourceRow → Value
watermark_of none = dict end
watermark_of (some row) = elim row.watermark [ none ↦ dict end | some w ↦ dict w ]

-- The element of `list_sources`.
abbrev pub source_view : Option SourceRow → SourceConfig → Value
source_view row cfg = object (
    ("id", text cfg.id)
    ∷ ("name", optional text cfg.name)
    ∷ ("plugin", text cfg.plugin)
    ∷ ("enabled", bool cfg.enabled)
    ∷ ("schedule", text cfg.schedule)
    ∷ ("watermark", watermark_of row)
    ∷ [])

module _ (uuid_text isoformat : ℕ → Text) where
  -- The element of `list_runs`.
  abbrev pub run_view : FeedRunRow → Value
  run_view r = object (
      ("id", str (uuid_text r.id))
      ∷ ("source_id", text r.source_id)
      ∷ ("state", text (run_state_value r.state))
      ∷ ("started_at", str (isoformat r.started_at))
      ∷ ("finished_at", optional (λ at. str (isoformat at)) r.finished_at)
      ∷ ("records_in", number r.records_in)
      ∷ ("records_out", number r.records_out)
      ∷ ("error", optional text r.error)
      ∷ ("raw_uri", optional text r.raw_uri)
      ∷ [])

  -- The object of `get_run`.
  abbrev pub run_detail : FeedRunRow → Value
  run_detail r = object (
      ("id", str (uuid_text r.id))
      ∷ ("source_id", text r.source_id)
      ∷ ("state", text (run_state_value r.state))
      ∷ ("started_at", str (isoformat r.started_at))
      ∷ ("finished_at", optional (λ at. str (isoformat at)) r.finished_at)
      ∷ ("fetched_bytes", number r.fetched_bytes)
      ∷ ("records_in", number r.records_in)
      ∷ ("records_out", number r.records_out)
      ∷ ("error", optional text r.error)
      ∷ ("watermark", optional dict r.watermark)
      ∷ ("raw_uri", optional text r.raw_uri)
      ∷ [])

  -- The element of `lookup_indicators`.
  abbrev pub indicator_view : IndicatorRow → Value
  indicator_view r = object (
      ("id", str (uuid_text r.id))
      ∷ ("type", str r.type)
      ∷ ("value", str r.value)
      ∷ ("confidence", number r.confidence)
      ∷ ("tlp", text r.tlp)
      ∷ ("tags", texts r.tags)
      ∷ ("first_seen_by_us", str (isoformat r.first_seen_by_us))
      ∷ ("last_seen_by_us", str (isoformat r.last_seen_by_us))
      ∷ [])

  -- The element of `list_dlq`. `error_class` is the name of the class.
  abbrev pub letter_view : (Error → String) → DeadLetter → Value
  letter_view class_name r = object (
      ("id", number r.id)
      ∷ ("feed_run_id", str (uuid_text r.letter.feed_run_id))
      ∷ ("source_id", text r.letter.source_id)
      ∷ ("error_class", text (class_name r.letter.error))
      ∷ ("error_msg", text r.letter.error.message)
      ∷ ("reason", text r.letter.reason)
      ∷ ("created_at", str (isoformat r.letter.created_at))
      ∷ ("replayed_at", optional (λ at. str (isoformat at)) r.letter.replayed_at)
      ∷ [])
