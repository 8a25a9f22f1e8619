-- ===== src/Pipeline/Tasks/Tests.antt =====
-- A pipeline with one payload, one record and one further publisher.
use null.Prelude.{pos, true, none, some, [], ◌∷◌, length}
use null.Enums.{mutex, info, amber}
use null.Json.{Fields, end, field, str}
use null.Hashing.{TextLibrary, refuse}
use null.Models.{RawPayload, RunContext, RunResult}
use null.Pipeline.{run_result}
use null.Pipeline.Tasks.{PipelineSpec, fetched_ctx, publish}
use null.Stages.Persist
use null.Stages.Publish
use null.Stages.Publish.{Publisher}

abbrev context : RunContext
context = record { run_id = 7; source_id = "feed"; watermark = end; raw_uri = none }

abbrev payload : RawPayload
payload = record {
  body = b'a' ∷ b'b' ∷ [];
  content_type = "text/plain";
  fetched_at = 1;
  etag = none;
  last_modified = none;
  source_url = none;
}

-- The watermark that the connector leaves.
abbrev moved : Fields
moved = field "etag" (str (b'1' ∷ [])) end

abbrev library : TextLibrary
library = record {
  ipv4_address = λ t. refuse "address";
  ipv6_address = λ t. refuse "address";
  urlparse = λ t. refuse "url";
  urlunparse = λ u. u.netloc;
  uuid5 = length;
}

abbrev webhook : Publisher
webhook = record { name = "webhook"; publish = λ n batch. none }

abbrev spec : PipelineSpec
spec = record {
  connector = λ ctx. record { yields = (moved, payload) ∷ []; left = moved; fails = none };
  parser = λ p. (field "value" (str p.body) end ∷ [], none);
  enrichers = [];
  canonical_publisher = λ n batch. none;
  extra_publishers = webhook ∷ [];
  normalize = record {
    indicator_type = some mutex;
    type_field = none;
    value_field = "value";
    confidence_default = pos 50;
    confidence_field = none;
    severity_default = info;
    tlp_default = amber;
    static_tags = [];
    tags_field = none;
    skip_on_error = true;
  };
  archive = none;
  bloom = none;
  batch_size = 500;
  library = library;
  now = 1;
  observed_at = λ n. n;
}

abbrev result : RunResult
result = run_result (fetched_ctx spec context) 2 3
