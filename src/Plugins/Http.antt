-- ===== src/Plugins/Http.antt =====
-- plugins/connectors/http_base.py: one conditional request. The HTTP client is given by the response
-- that it makes of the headers, or by the error that it raises; gzip and zipfile are given by their
-- results. The three connectors of the package differ in the default content type alone.
pub mod Conditional
use null.Prelude.{
  ℕ, ltb, leb, ◌==◌, String, str_eq, Bool, true, false, not, ◌&&◌, Option, none, some, List, [],
  ◌∷◌, ◌++◌, length, if◌then◌else◌,
}
use null.Dict.{Dict, lookup, insert}
use null.Text.{Text, codes, is_empty}
use null.Errors.{
  Error, ErrorClass, Result, ok, err, ◌>>=◌, transient_error, permanent_error, rate_limited,
}
use null.Json.{Value, nothing, str, Fields, end, field, get_field}
use null.Json.Str.{to_str, truth}
use null.Models.{RawPayload, RunContext}
use null.Stages.Fetch.{Fetching, Connector}
use null.Egress.{Resolver, check_url}

pub record HttpConnectorConfig : Type 0 where
  pub url : String
  pub headers : Dict Text
  pub auth_bearer : Option Text
  pub max_bytes : ℕ
  pub decompress : Option String
  pub zip_member : Option String
  pub allow_http : Bool

-- What the connector reads of a response.
pub record Response : Type 0 where
  pub status_code : ℕ
  pub content : List ℕ
  pub etag : Option String
  pub last_modified : Option String
  pub retry_after : Option Text
  pub content_type : Option String

-- `AsyncClient.request`; `TimeoutException` and the other errors of httpx make the same class.
pub data Answer : Type 0 where
  answered : Response → Answer
  timeout http_error : Answer

pub record HttpLibrary : Type 0 where
  pub request : Dict Text → Answer
  pub parse_float : Text → Option ℕ
  pub gzip_decompress : List ℕ → Result (List ℕ)
  pub namelist : List ℕ → Result (List String)
  pub read_member : List ℕ → String → Result (List ℕ)

abbrev raised {ℓ} : {A : Type ℓ} → ErrorClass → String → Result A
raised cls message = err (record { cls = cls; message = message })

-- `d[k] = v`
unfoldable pub set_field : String → Value → Fields → Fields
set_field k v end = field k v end
set_field k v (field j w rest) =
    if str_eq j k then field j v rest else field j w (set_field k v rest)

abbrev pub with_bearer : Option Text → Dict Text → Dict Text
with_bearer none headers = headers
with_bearer (some token) headers =
    if is_empty token then headers else insert "Authorization" (codes "Bearer " ++ token) headers

-- `if value := watermark.get(key): headers[name] = str(value)`
abbrev pub with_condition : String → Option Value → Dict Text → Dict Text
with_condition name none headers = headers
with_condition name (some v) headers = if truth v then insert name (to_str v) headers else headers

-- The headers of the request.
unfoldable pub request_headers : HttpConnectorConfig → Fields → Dict Text
unfolding get_field insert
request_headers config watermark =
    with_condition "If-Modified-Since" (get_field "last_modified" watermark) (
      with_condition "If-None-Match" (get_field "etag" watermark)
        (with_bearer config.auth_bearer config.headers))

-- The value of a header in the watermark: `None` where the response has no such header.
abbrev pub header_value : Option String → Value
header_value none = nothing
header_value (some h) = str (codes h)

abbrev pub or_type : String → Option String → String
or_type default none = default
or_type default (some given) = given

abbrev first_name : List String → Option String
first_name [] = none
first_name (n ∷ names) = some n

abbrev zip_target : Option String → List String → Option String
zip_target none names = first_name names
zip_target (some member) names = if str_eq member "" then first_name names else some member

module _ (library : HttpLibrary) (resolver : Resolver) (config : HttpConnectorConfig)
    (default_content_type : String) (now : ℕ) where
  abbrev read_target : List ℕ → Option String → Result (List ℕ)
  read_target body none = raised permanent_error "zip archive empty"
  read_target body (some target) = library.read_member body target

  abbrev pub decompressed : Option String → List ℕ → Result (List ℕ)
  decompressed none body = ok body
  decompressed (some kind) body =
      if str_eq kind "gzip"
      then library.gzip_decompress body
      else if str_eq kind "zip"
      then library.namelist body
        >>= (λ names. read_target body (zip_target config.zip_member names))
      else ok body

  abbrev retry_seconds : Option Text → Option ℕ
  retry_seconds none = none
  retry_seconds (some text) = if is_empty text then none else library.parse_float text

  -- The watermark after a response with a payload.
  abbrev pub moved : Response → RunContext → RunContext
  moved response ctx = record ctx {
    watermark =
        set_field "last_modified" (header_value response.last_modified)
          (set_field "etag" (header_value response.etag) ctx.watermark);
  }

  abbrev pub payload_of : Response → List ℕ → RawPayload
  payload_of response body = record {
    body = body;
    content_type = or_type default_content_type response.content_type;
    fetched_at = now;
    etag = response.etag;
    last_modified = response.last_modified;
    source_url = some config.url;
  }

  abbrev pub yielded :
      Response → RunContext → Result (List ℕ) → Result (Option RawPayload) × RunContext
  yielded response ctx (err e) = (err e, ctx)
  yielded response ctx (ok body) = (ok (some (payload_of response body)), moved response ctx)

  -- What follows the response, by its status.
  unfoldable pub handle_response : Response → RunContext → Result (Option RawPayload) × RunContext
  handle_response response ctx =
      let status = response.status_code in
      if status == 304
      then (ok none, ctx)
      else if status == 429
      then (raised (rate_limited (retry_seconds response.retry_after)) "429", ctx)
      else if leb 500 status && ltb status 600
      then (raised transient_error "upstream", ctx)
      else if leb 400 status
      then (raised permanent_error "client error", ctx)
      else if ltb config.max_bytes (length response.content)
      then (raised permanent_error "payload exceeds max_bytes", ctx)
      else yielded response ctx (decompressed config.decompress response.content)

  abbrev pub handle_answer : Answer → RunContext → Result (Option RawPayload) × RunContext
  handle_answer (answered response) ctx = handle_response response ctx
  handle_answer timeout ctx = (raised transient_error "timeout", ctx)
  handle_answer http_error ctx = (raised transient_error "http error", ctx)

  abbrev pub checked : Result (Unit {0}) → RunContext → Result (Option RawPayload) × RunContext
  checked (err e) ctx = (err e, ctx)
  checked (ok _) ctx = handle_answer (library.request (request_headers config ctx.watermark)) ctx

  -- `HttpConnectorBase.fetch`: the payload that it yields, if any, or the exception, and the context.
  unfoldable pub fetch : RunContext → Result (Option RawPayload) × RunContext
  unfolding handle_response
  fetch ctx = checked (check_url resolver config.url config.allow_http) ctx

  abbrev pub fetching : Result (Option RawPayload) × RunContext → Fetching
  fetching (err e, ctx) = record { yields = []; left = ctx.watermark; fails = some e }
  fetching (ok none, ctx) = record { yields = []; left = ctx.watermark; fails = none }
  fetching (ok (some payload), ctx) = record {
    yields = (ctx.watermark, payload) ∷ [];
    left = ctx.watermark;
    fails = none;
  }

  -- What the fetch stage sees of the connector.
  abbrev pub connector : Connector
  connector ctx = fetching (fetch ctx)
