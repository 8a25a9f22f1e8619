-- ===== src/Cli/Sources/Shown.antt =====
-- What `show_effective_config` shows of the credentials of an HTTP connector.
use null.Prelude.{◌≡◌, refl}
use null.Text.{Text, lower, to_lower, text_eq}
use null.Json.{str, list, dict, nil, cons, Fields, field}
use null.Cli.Masking.{mask, mask_fields}
use null.Cli.Sources.{is_secret}

-- The user and the password of `auth_basic` are shown as they are.
pub mask-auth_basic :
    (user password : Text) (rest : Fields)
    → let pair = list (cons (str user) (cons (str password) nil)) in
      mask is_secret (dict (field "auth_basic" pair rest))
      ≡ dict (field "auth_basic" pair (mask_fields is_secret rest))
unfolding mask is_secret text_eq lower to_lower
mask-auth_basic user password rest = refl
