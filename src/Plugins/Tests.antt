-- ===== src/Plugins/Tests.antt =====
-- The theorems on the plugins: a webhook that allows AMBER, a source that names two publishers, and a
-- feed that answers with an ETag.
use null.Prelude.{String, ◌≡◌, refl, pos, true, false, none, some, [], ◌∷◌, All}
use null.Dict.{lookup}
use null.Text.{codes}
use null.Errors.{ok}
use null.Enums.{Tlp, amber, red, green, tlp_order, mutex, info}
use null.Json.{end, field, str, list}
use null.Models.{RunContext}
use null.Stages.Persist.{Pair}
use null.Registry.{SourceConfig}
use null.Egress.{Resolver, v4, any_net, is_blocked, check_addresses, check_url}
use null.Plugins.JsonParser.{JsonLibrary}
use null.Plugins.JsonParser.Documents.{wrapped, items_of}
use null.Enums.{tlp_value}
use null.Plugins.Tlp.{webhook_publish, kafka_publish}
use null.Plugins.Tlp.Filter.{IsAllowed, publish-IsAllowed}
use null.Plugins.Builder.{
  PluginLoader, PipelineSpec, params_of, load_enrichers, load_publishers, build_pipeline_spec,
}
use null.Plugins.Builder.Publishers.{others, Loaded, build_pipeline_spec-publishers}
use null.Plugins.Http.{
  HttpConnectorConfig, HttpLibrary, Response, answered, request_headers, handle_response,
  payload_of, moved, fetch,
}
use null.Plugins.Http.Conditional.{fetch-conditional}

abbrev pair : Tlp → Pair
pair t = (
  record {
    id = 1;
    type = mutex;
    value = codes "m";
    pattern = none;
    confidence = 50;
    severity = info;
    tlp = t;
    tags = [];
    first_seen_by_us = 1;
    last_seen_by_us = 1;
    valid_from = none;
    valid_until = none;
    schema_version = "1";
  },
  record {
    indicator_id = 1;
    source_id = "feed";
    feed_run_id = 7;
    observed_at = 1;
    tlp = t;
    confidence = 50;
    raw = end;
    schema_version = "1";
  },
)

publish-IsAllowed_example :
    All
      (All (IsAllowed (tlp_order amber)))
      (webhook_publish (tlp_value amber) none (pair red ∷ pair green ∷ [])).calls
    × All
        (All (IsAllowed (tlp_order amber)))
        (kafka_publish (tlp_value amber) (λ n. none) (pair red ∷ pair green ∷ [])).calls
publish-IsAllowed_example = publish-IsAllowed amber none (λ n. none) (pair red ∷ pair green ∷ [])

-- A loader for which a plugin is its name.
abbrev loader : PluginLoader
loader = record {
  Connector = String;
  Parser = String;
  Enricher = String;
  Publisher = String;
  load_connector = λ name params. ok name;
  load_parser = λ name params. ok name;
  load_enricher = λ name params. ok name;
  load_publisher = λ name params. ok name;
}

abbrev source : SourceConfig
source = record {
  id = "feed";
  name = none;
  plugin = "builtin.http_json";
  enabled = true;
  schedule = "0 */6 * * *";
  jitter_seconds = pos 60;
  rate_limit_rps = none;
  max_parallelism = pos 1;
  timeout_seconds = pos 60;
  retry = record { max_attempts = 5; initial_seconds = 1; max_seconds = 60; jitter_seconds = 1 };
  circuit = record { failure_threshold = 5; recovery_seconds = 300 };
  parser = "builtin.json";
  enrichers = "defang" ∷ [];
  publishers = "webhook" ∷ "kafka" ∷ [];
  params = end;
  parser_params = end;
  enricher_params = [];
  publisher_params = [];
  normalize = record {
    indicator_type = some mutex;
    type_field = none;
    value_field = "value";
    confidence_default = pos 50;
    confidence_field = none;
    severity_default = info;
    tlp_default = amber;
    static_tags = [];
    tags_field = none;
    skip_on_error = true;
  };
  tlp = amber;
  severity_default = info;
  confidence_default = pos 50;
  tags = [];
}

abbrev spec : PipelineSpec loader
spec = record {
  connector = "builtin.http_json";
  parser = "builtin.json";
  enrichers = "defang" ∷ [];
  canonical_publisher = "postgres";
  extra_publishers = "webhook" ∷ "kafka" ∷ [];
  normalize = source.normalize;
  queue_maxsize = 1000;
  batch_size = 500;
}

build_pipeline_spec-publishers_example :
    (loader.load_publisher "postgres" (params_of "postgres" source.publisher_params)
      ≡ ok spec.canonical_publisher)
    × Loaded loader source.publisher_params (others source.publishers) spec.extra_publishers
unfolding build_pipeline_spec load_enrichers load_publishers lookup
build_pipeline_spec-publishers_example = build_pipeline_spec-publishers loader source none spec refl

abbrev resolver : Resolver
resolver = record {
  scheme = λ url. "https";
  hostname = λ url. some "feeds.example";
  ip_address = λ addr. some (v4 134744072);
  getaddrinfo = λ host. some ("8.8.8.8" ∷ []);
}

abbrev response : Response
response = record {
  status_code = 200;
  content = b'{' ∷ b'}' ∷ [];
  etag = some "v2";
  last_modified = none;
  retry_after = none;
  content_type = some "application/json";
}

abbrev library : HttpLibrary
library = record {
  request = λ headers. answered response;
  parse_float = λ t. none;
  gzip_decompress = λ body. ok body;
  namelist = λ body. ok [];
  read_member = λ body name. ok body;
}

abbrev config : HttpConnectorConfig
config = record {
  url = "https://feeds.example/x";
  headers = [];
  auth_bearer = none;
  max_bytes = 1000;
  decompress = none;
  zip_member = none;
  allow_http = false;
}

abbrev context : RunContext
context = record { run_id = 7; source_id = "feed"; watermark = end; raw_uri = none }

fetch-conditional_example :
    lookup "If-None-Match" (
      request_headers config
        (moved library resolver config "text/plain" 1 response context).watermark)
    ≡ some (codes "v2")
unfolding fetch handle_response check_url check_addresses is_blocked any_net
fetch-conditional_example =
    fetch-conditional library resolver config "text/plain" 1 context
      (moved library resolver config "text/plain" 1 response context)
      (payload_of library resolver config "text/plain" 1 response response.content) "v2" refl refl
      refl

-- Two records under "data", in a document that the codec and `json.loads` are asked for.
abbrev json : JsonLibrary
json = record {
  decode = λ body. some body;
  splitlines = λ t. t ∷ [];
  loads = λ t.
      some
        (wrapped ("data" ∷ []) (list (items_of (end ∷ field "value" (str (codes "x")) end ∷ []))));
}
