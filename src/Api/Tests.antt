-- ===== src/Api/Tests.antt =====
-- The API with a reader and an operator.
use mathlib.Core.List.{Memᴰ}
use null.Prelude.{ℕ, String, ◌≡◌, refl, true, none, some, List, [], ◌∷◌, drop}
use null.Errors.{err, other_error}
use null.Text.{
  Text, codes, lower, to_lower, strip, starts_with, text_eq, drop_while, drop_while_end, is_space,
}
use null.Json.{nothing}
use null.Repositories.{DeadLetter}
use null.Repositories.Queries.Instance.{insertion}
use null.Api.{App, Request, Platform}
use null.Api.Auth.{
  Principal, TokenStore, TokenEntry, scope_in, find_token, set_token, only_valid, load_tokens,
  load_store, authenticate,
}
use null.Api.Auth.Scopes.{Names, authenticate-granted}

abbrev reader : Principal
reader = record { name = "reader"; scopes = "read" ∷ [] }

abbrev operator : Principal
operator = record { name = "operator"; scopes = "read" ∷ "trigger" ∷ [] }

abbrev tokens : TokenStore
tokens = (codes "r1", reader) ∷ (codes "o1", operator) ∷ []

abbrev entries : List TokenEntry
entries =
    record { token = some (codes "r1"); name = some "reader"; scopes = some ("read" ∷ "root" ∷ []) }
    ∷ record {
      token = some (codes "o1");
      name = some "operator";
      scopes = some ("read" ∷ "trigger" ∷ []);
    }
    ∷ []

abbrev letter : ℕ → DeadLetter
letter id = record {
  id = id;
  letter = record {
    feed_run_id = 7;
    source_id = "feed";
    error = record { cls = other_error; message = "boom" };
    reason = "permanent";
    created_at = id;
    replayed_at = none;
  };
}

abbrev app : App
app = record {
  registry = [];
  tokens = tokens;
  enqueue = none;
  outage = none;
  sources = [];
  runs = [];
  indicators = [];
  dead_letters = letter 1 ∷ letter 2 ∷ [];
  queued = [];
}

abbrev platform : Platform
platform = record {
  run_order = insertion _;
  letter_order = insertion _;
  indicator_order = insertion _;
  id_order = λ rows. rows;
  uuid_text = λ id. [];
  parse_uuid = λ t. err (record { cls = other_error; message = "uuid" });
  isoformat = λ at. [];
  model_dump = λ cfg. nothing;
  latest_metrics = [];
  class_name = λ e. "Exception";
}

abbrev by : String → Request
by header = record { authorization = some (codes header); query = []; now = 9 }

authenticate-granted_example :
    (text : Text) × (some (codes "BEARER o1") ≡ some text)
    × (starts_with (lower text) (codes "bearer ") ≡ true)
    × ((entry : TokenEntry) × Memᴰ entry entries
        × (entry.token ≡ some (strip (drop 7 text)))
        × Names entry operator "admin")
unfolding load_store load_tokens set_token only_valid scope_in authenticate find_token lower
    to_lower strip starts_with text_eq drop_while drop_while_end is_space
authenticate-granted_example =
    authenticate-granted entries tokens (some (codes "BEARER o1")) operator "admin" refl refl
