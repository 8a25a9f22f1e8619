-- ===== src/Api/Auth.antt =====
-- obs/auth.py: bearer tokens with scopes. `load` is modelled from the parsed file on.
pub mod Scopes
use null.Prelude.{
  String, str_eq, Bool, true, false, ◌||◌, not, Option, none, some, List, [], ◌∷◌, drop,
  if◌then◌else◌,
}
use null.Errors.{Result, ok, err, ◌>>=◌, key_error}
use null.Text.{Text, codes, text_eq, is_empty, lower, starts_with, strip}

-- `VALID_SCOPES`
abbrev pub valid_scopes : List String
valid_scopes = "read" ∷ "trigger" ∷ "admin" ∷ []

-- `scope in scopes`
unfoldable pub scope_in : String → List String → Bool
scope_in scope [] = false
scope_in scope (s ∷ scopes) = str_eq s scope || scope_in scope scopes

pub record Principal : Type 0 where
  pub name : String
  pub scopes : List String

-- `Principal.has`
unfoldable pub has : Principal → String → Bool
unfolding scope_in
has principal scope = scope_in scope principal.scopes || scope_in "admin" principal.scopes

-- `TokenStore._tokens`
abbrev pub TokenStore : Type 0
TokenStore = List (Text × Principal)

unfoldable pub find_token : Text → TokenStore → Option Principal
unfolding text_eq
find_token token [] = none
find_token token ((t, principal) ∷ tokens) =
    if text_eq t token then some principal else find_token token tokens

-- `out[token] = principal`
unfoldable pub set_token : Text → Principal → TokenStore → TokenStore
unfolding text_eq
set_token token principal [] = (token, principal) ∷ []
set_token token principal ((t, p) ∷ tokens) =
    if text_eq t token then (t, principal) ∷ tokens else (t, p) ∷ set_token token principal tokens

-- An element of `tokens` in the file, with the keys that it has.
pub record TokenEntry : Type 0 where
  pub token : Option Text
  pub name : Option String
  pub scopes : Option (List String)

unfoldable pub only_valid : List String → List String
unfolding scope_in
only_valid [] = []
only_valid (s ∷ scopes) =
    let rest = only_valid scopes in if scope_in s valid_scopes then s ∷ rest else rest

abbrev pub or_else {ℓ} : {A : Type ℓ} → A → Option A → A
or_else default none = default
or_else default (some a) = a

abbrev pub principal_of : TokenEntry → Principal
principal_of entry = record {
  name = or_else "anonymous" entry.name;
  scopes = only_valid (or_else [] entry.scopes);
}

-- The loop of `TokenStore.load`.
unfoldable pub load_tokens : List TokenEntry → TokenStore → Result TokenStore
unfolding set_token only_valid
load_tokens [] out = ok out
load_tokens (entry ∷ entries) out = elim entry.token [
  | none ↦ err (record { cls = key_error; message = "token" })
  | some token ↦ load_tokens entries (set_token token (principal_of entry) out)
]

-- `TokenStore.load`: the store is empty where no file is configured, or none is there.
unfoldable pub load_store : Option (List TokenEntry) → Result TokenStore
unfolding load_tokens
load_store none = ok []
load_store (some entries) = load_tokens entries []

abbrev pub bearer : Text
bearer = codes "bearer "

-- `TokenStore.authenticate`
unfoldable pub authenticate : TokenStore → Option Text → Option Principal
unfolding find_token lower starts_with strip
authenticate tokens none = none
authenticate tokens (some header) =
    if is_empty header || not (starts_with (lower header) bearer)
    then none
    else find_token (strip (drop 7 header)) tokens
