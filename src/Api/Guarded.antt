-- ===== src/Api/Guarded.antt =====
-- No answer and no change without the scope.
use null.Prelude.{String, ◌≡◌, Bool, false, Option, none, some}
use null.Api.Auth.{has, authenticate}
use null.Api.{App, Request, Platform}
use null.Api.Replies.{Reply, unauthorized}
use null.Api.Routes.{Route, to_healthz, to_readyz, to_metrics, to_trigger, to_replay}

-- The scope that docs/user-guide names for a route; the probes and the metrics are public.
abbrev pub required_scope : Route → Option String
required_scope to_healthz = none
required_scope to_readyz = none
required_scope to_metrics = none
required_scope (to_trigger _) = some "trigger"
required_scope (to_replay _) = some "trigger"
required_scope _ = some "read"

-- Whether the request comes from a principal with the scope.
abbrev pub allowed : App → Request → String → Bool
allowed app request scope = elim (authenticate app.tokens request.authorization) [
  | none ↦ false
  | some principal ↦ has principal scope
]

module _ (platform : Platform) (app : App) (request : Request) where
  -- Without the scope the reply is that it is required.
  abbrev Requires : String → Reply × App → Type 0
  Requires scope reply =
      allowed app request scope ≡ false → ◌≡◌ {A = Reply × App} reply (unauthorized scope, app)
