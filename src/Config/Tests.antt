-- ===== src/Config/Tests.antt =====
-- A configuration with a reference to the environment.
use null.Prelude.{◌≡◌, refl, Option, none, some, [], ◌∷◌, ◌++◌}
use null.Text.{Text, codes, starts_with}
use null.Json.{Value, nothing, str, list, cons, nil, dict, field, end}
use null.Json.Str.{has_code}
use null.Config.Secrets.{resolve_secrets, resolve_str, sub_from, reference, until_brace, repl}
use null.Config.Secrets.Paths.{key, place, value_at, value_at-resolve_secrets}

abbrev environ : Text → Option Text
environ name = some (codes "s3cr3t")

abbrev no_file : Text → Option Text
no_file path = none

abbrev config : Value
config = dict (field "token" (str (codes "Bearer ${env:TOKEN}")) end)

-- The token of the second of two feeds.
abbrev feeds : Value
feeds = dict (field "feeds" (list (cons nothing (cons config nil))) end)

value_at-resolve_secrets_example :
    value_at (key "feeds" ∷ place 1 ∷ key "token" ∷ []) (resolve_secrets environ no_file feeds)
    ≡ some (str (codes "Bearer " ++ (codes "s3cr3t" ++ resolve_str environ no_file [])))
unfolding value_at has_code
value_at-resolve_secrets_example =
    value_at-resolve_secrets environ no_file (key "feeds" ∷ place 1 ∷ key "token" ∷ []) feeds
      (codes "Bearer ") b'T' (codes "OKEN") [] refl refl refl

resolved :
    resolve_secrets environ no_file config ≡ dict (field "token" (str (codes "Bearer s3cr3t")) end)
unfolding resolve_secrets resolve_str sub_from reference until_brace starts_with repl
resolved = refl
