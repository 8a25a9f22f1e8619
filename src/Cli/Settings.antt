-- ===== src/Cli/Settings.antt =====
-- cli/commands/config_cmd.py. The settings, as `model_dump` makes a value of them, are input.
use null.Prelude.{String, Bool, false, ◌||◌, List, [], ◌∷◌}
use null.Text.{Text, codes, lower, starts_with}
use null.Json.{Value}
use null.Cli.{CommandEnd, prints}
use null.Cli.Masking.{mask}

-- `t in s`
unfoldable pub contains_text : Text → Text → Bool
unfolding starts_with
contains_text t [] = starts_with [] t
contains_text t (c ∷ s) = starts_with (c ∷ s) t || contains_text t s

abbrev pub contains_any : List Text → Text → Bool
contains_any [] s = false
contains_any (t ∷ ts) s = contains_text t s || contains_any ts s

-- The keys whose values are masked.
unfoldable pub is_secret_setting : String → Bool
unfolding contains_text lower
is_secret_setting k =
    contains_any (codes "password" ∷ codes "token" ∷ codes "dsn" ∷ []) (lower (codes k))

-- `show_config`
unfoldable pub show_config : Value → CommandEnd Value
unfolding mask is_secret_setting
show_config settings = prints (mask is_secret_setting settings)
