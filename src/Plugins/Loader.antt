-- ===== src/Plugins/Loader.antt =====
-- plugins/loader.py, with its messages but for the quotes around names. The entry points of the installed packages are a parameter, and so is what a
-- class makes of its parameters: the validation by its model, and its constructor.
pub mod Discovered
use null.Prelude.{
  String, str_eq, str_append, ◌&&◌, Bool, true, Option, none, some, List, [], ◌∷◌, if◌then◌else◌,
}
use null.Dict.{Dict, lookup, insert}
use null.Errors.{Error, Result, ok, err, ◌>>=◌, is_exception, plugin_load_error}
use null.Json.{Fields}
use null.Plugins.Builder.{PluginLoader}

abbrev group_connectors : String
group_connectors = "cti.connectors"

abbrev group_parsers : String
group_parsers = "cti.parsers"

abbrev group_enrichers : String
group_enrichers = "cti.enrichers"

abbrev group_publishers : String
group_publishers = "cti.publishers"

-- `_ALL_GROUPS`
abbrev pub all_groups : List String
all_groups = "cti.connectors" ∷ "cti.parsers" ∷ "cti.enrichers" ∷ "cti.publishers" ∷ []

-- An entry point, and what its `load` comes to.
pub record EntryPoint (Class : Type 0) : Type 0 where
  pub group : String
  pub name : String
  pub load : Result Class

pub record Packages : Type 1 where
  pub Class : Type 0
  pub Config : Type 0
  pub Plugin : Type 0
  pub entries : List (EntryPoint Class)
  -- `cls.config_model.model_validate(params)`
  pub model_validate : Class → Fields → Result Config
  -- `cls(cfg)`
  pub construct : Class → Config → Result Plugin

-- `except Exception as exc: raise PluginLoadError(…) from exc`
abbrev pub load_failed {ℓ} : {A : Type ℓ} → String → Result A → Result A
load_failed what (ok a) = ok a
load_failed what (err e) =
    if is_exception e.cls
    then err (record { cls = plugin_load_error; message = str_append what e.message })
    else err e

-- `{group}:{name}: `
abbrev pub entry_text : String → String → String
entry_text group name = str_append group (str_append ":" (str_append name ": "))

module _ {Class : Type 0} where
  -- `entry_points(group=group)`
  unfoldable pub of_group : String → List (EntryPoint Class) → List (EntryPoint Class)
  of_group group [] = []
  of_group group (ep ∷ eps) =
      let rest = of_group group eps in if str_eq ep.group group then ep ∷ rest else rest

  -- Those of the name.
  unfoldable pub named : String → List (EntryPoint Class) → List (EntryPoint Class)
  named name [] = []
  named name (ep ∷ eps) =
      let rest = named name eps in if str_eq ep.name name then ep ∷ rest else rest

  -- The inner loop of `discover`, from this value of `out[group]` on.
  unfoldable pub discover_group :
      String → List (EntryPoint Class) → Dict Class → Result (Dict Class)
  unfolding insert
  discover_group group [] found = ok found
  discover_group group (ep ∷ eps) found = do
    cls ← load_failed (str_append "failed to load entry point " (entry_text group ep.name)) ep.load
    discover_group group eps (insert ep.name cls found)

  abbrev pub group_found : Option (Dict Class) → Dict Class
  group_found none = []
  group_found (some found) = found

  -- The outer loop.
  unfoldable pub discover_groups :
      List (EntryPoint Class) → List String → Dict (Dict Class) → Result (Dict (Dict Class))
  unfolding of_group discover_group lookup insert
  discover_groups eps [] out = ok out
  discover_groups eps (group ∷ groups) out = do
    found ← discover_group group (of_group group eps) (group_found (lookup group out))
    discover_groups eps groups (insert group found out)

  -- `{g: {} for g in _ALL_GROUPS}`
  abbrev pub no_plugins : List String → Dict (Dict Class)
  no_plugins [] = []
  no_plugins (group ∷ groups) = (group, []) ∷ no_plugins groups

  -- `discover`
  unfoldable pub discover : List (EntryPoint Class) → Result (Dict (Dict Class))
  unfolding discover_groups
  discover eps = discover_groups eps all_groups (no_plugins all_groups)

  abbrev pub load_first : String → String → List (EntryPoint Class) → Result Class
  load_first group name [] = err (record {
    cls = plugin_load_error;
    message = str_append "no plugin " (str_append name (str_append " in group " group));
  })
  load_first group name (ep ∷ eps) =
      load_failed (str_append "failed to load " (entry_text group name)) ep.load

  -- `load`
  unfoldable pub load : List (EntryPoint Class) → String → String → Result Class
  unfolding of_group named
  load eps group name = load_first group name (named name (of_group group eps))

module _ (packages : Packages) where
  open packages use {Plugin, entries, model_validate, construct}

  -- `instantiate`
  unfoldable pub instantiate : String → String → Fields → Result Plugin
  unfolding load
  instantiate group name params = do
    cls ← load entries group name
    cfg ← model_validate cls params
    construct cls cfg

  -- `load_connector`, `load_parser`, `load_enricher` and `load_publisher`: what the builder calls.
  abbrev pub plugin_loader : PluginLoader
  plugin_loader = record {
    Connector = Plugin;
    Parser = Plugin;
    Enricher = Plugin;
    Publisher = Plugin;
    load_connector = instantiate group_connectors;
    load_parser = instantiate group_parsers;
    load_enricher = instantiate group_enrichers;
    load_publisher = instantiate group_publishers;
  }
