-- ===== src/Plugins/Builder.antt =====
-- plugins/builder.py, with `PipelineSpec` of core/pipeline.py. plugins/loader.py finds the plugins
-- among the installed packages: what it loads is a parameter.
pub mod Publishers
use null.Prelude.{
  ℕ, String, str_eq, Bool, true, false, not, ◌&&◌, ◌||◌, Option, none, some, List, [], ◌∷◌, ◌++◌,
  if◌then◌else◌,
}
use null.Dict.{Dict, lookup}
use null.Errors.{Result, ok, err, ◌>>=◌, other_error}
use null.Json.{Fields, end}
use null.Registry.{SourceConfig}
use null.Stages.Normalize.{NormalizeConfig}

pub record PluginLoader : Type 1 where
  pub Connector : Type 0
  pub Parser : Type 0
  pub Enricher : Type 0
  pub Publisher : Type 0
  pub load_connector : String → Fields → Result Connector
  pub load_parser : String → Fields → Result Parser
  pub load_enricher : String → Fields → Result Enricher
  pub load_publisher : String → Fields → Result Publisher

-- `params.get(name, {})`
abbrev pub params_of : String → Dict Fields → Fields
params_of name params = elim (lookup name params) [ none ↦ end | some fields ↦ fields ]

abbrev pub has_name : String → List String → Bool
has_name name [] = false
has_name name (n ∷ names) = str_eq n name || has_name name names

abbrev pub default_names : List String → List String
default_names [] = "postgres" ∷ []
default_names (n ∷ names) = n ∷ names

-- `pub_names`: the store is among them, in front if the source does not name it.
abbrev pub publisher_names : List String → List String
publisher_names names =
    let given = default_names names in
    if has_name "postgres" given then given else "postgres" ∷ given

module _ (loader : PluginLoader) where
  open loader use {Connector, Parser, Enricher, Publisher}

  pub record PipelineSpec : Type 0 where
    pub connector : Connector
    pub parser : Parser
    pub enrichers : List Enricher
    pub canonical_publisher : Publisher
    pub extra_publishers : List Publisher
    pub normalize : NormalizeConfig
    pub queue_maxsize : ℕ
    pub batch_size : ℕ

  unfoldable pub load_enrichers : Dict Fields → List String → Result (List Enricher)
  load_enrichers params [] = ok []
  load_enrichers params (name ∷ names) = do
    enricher ← loader.load_enricher name (params_of name params)
    rest ← load_enrichers params names
    ok (enricher ∷ rest)

  abbrev pub is_none : Option Publisher → Bool
  is_none none = true
  is_none (some p) = false

  -- One turn of the loop, given what the rest of the loop does with the two variables.
  abbrev pub place :
      String
      → Publisher
      → Option Publisher
      → List Publisher
      → (Option Publisher → List Publisher → Result (Option Publisher × List Publisher))
      → Result (Option Publisher × List Publisher)
  place name instance_ canonical extras rest =
      if str_eq name "postgres" && is_none canonical
      then rest (some instance_) extras
      else rest canonical (extras ++ instance_ ∷ [])

  -- The loop over the names, from these values of `canonical` and `extras` on.
  unfoldable pub load_publishers :
      Dict Fields
      → List String
      → Option Publisher
      → List Publisher
      → Result (Option Publisher × List Publisher)
  load_publishers params [] canonical extras = ok (canonical, extras)
  load_publishers params (name ∷ names) canonical extras = do
    instance_ ← loader.load_publisher name (params_of name params)
    place name instance_ canonical extras (load_publishers params names)

  -- `assert canonical is not None`
  abbrev pub asserted : Option Publisher → Result Publisher
  asserted none = err (record { cls = other_error; message = "assertion" })
  asserted (some p) = ok p

  -- `build_pipeline_spec`, with the defaults of `PipelineSpec`. Nothing reads `replay_from_uri`.
  unfoldable pub build_pipeline_spec : SourceConfig → Option String → Result PipelineSpec
  unfolding load_enrichers load_publishers
  build_pipeline_spec source replay_from_uri = do
    connector ← loader.load_connector source.plugin source.params
    parser ← loader.load_parser source.parser source.parser_params
    enrichers ← load_enrichers source.enricher_params source.enrichers
    publishers ← load_publishers source.publisher_params (publisher_names source.publishers) none []
    canonical ← asserted publishers.0
    ok (record {
      connector = connector;
      parser = parser;
      enrichers = enrichers;
      canonical_publisher = canonical;
      extra_publishers = publishers.1;
      normalize = source.normalize;
      queue_maxsize = 1000;
      batch_size = 500;
    })
