-- ===== src/Cli/Sources.antt =====
-- cli/commands/sources.py. `model_dump`, which makes a value of a configuration, is a parameter; the
-- file is what is left of it once it has been read.
pub mod Shown
use null.Prelude.{ℕ, String, Bool, ◌||◌, List, [], ◌∷◌, if◌then◌else◌, length}
use null.Text.{Text, codes, lower, text_eq}
use null.Json.{Value}
use null.Errors.{Result, ok, err, is_exception}
use null.Pipeline.{one}
use null.Registry.{SourceConfig, SourceRegistry, load, get_source, all_sources}
use null.Cli.Masking.{mask}
use null.Cli.{CommandEnd, prints, exits, crashes}

-- `_registry`
unfoldable pub registry : List SourceConfig → Result SourceRegistry
unfolding load
registry file =
    let (loaded, store) = load file [] in elim loaded [ ok _ ↦ ok store | err e ↦ err e ]

-- A line of `list_sources`: the id, the plugin, whether it is enabled, and the schedule.
abbrev pub source_line : SourceConfig → String × String × Bool × String
source_line source = (source.id, source.plugin, source.enabled, source.schedule)

abbrev pub source_lines : List SourceConfig → List (String × String × Bool × String)
source_lines [] = []
source_lines (source ∷ rest) = source_line source ∷ source_lines rest

-- `list_sources`
unfoldable pub list_sources :
    List SourceConfig → CommandEnd (List (String × String × Bool × String))
unfolding registry
list_sources file = elim (registry file) [
  | err e ↦ crashes (one e)
  | ok store ↦ prints (source_lines (all_sources store))
]

-- `validate_config`, which prints the number of the sources.
unfoldable pub validate_config : List SourceConfig → CommandEnd ℕ
unfolding registry
validate_config file = elim (registry file) [
  | err e ↦ if is_exception e.cls then exits 2 else crashes (one e)
  | ok store ↦ prints (length (all_sources store))
]

-- The keys whose values are masked.
unfoldable pub is_secret : String → Bool
unfolding lower text_eq
is_secret k =
    let lowered = lower (codes k) in
    text_eq lowered (codes "auth_bearer")
    || text_eq lowered (codes "bearer")
    || text_eq lowered (codes "password")
    || text_eq lowered (codes "token")

module _ (model_dump : SourceConfig → Value) where
  -- `show_effective_config`
  unfoldable pub show_effective_config : String → List SourceConfig → CommandEnd Value
  unfolding registry get_source mask is_secret
  show_effective_config source_id file = elim (registry file) [
    | err e ↦ crashes (one e)
    | ok store ↦ elim (get_source source_id store) [
      | err e ↦ crashes (one e)
      | ok cfg ↦ prints (mask is_secret (model_dump cfg))
    ]
  ]
