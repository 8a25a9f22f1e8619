-- ===== src/Api/Replay.antt =====
-- The replay of a dead letter, and the list of the open ones after it.
use null.Prelude.{ℕ, pos, true}
use null.Dict.{lookup}
use null.Repositories.{mark_replayed, list_dead_letters}
use null.Api.{App, Request, Platform}
use null.Api.Replies.{Reply, answer, json, array, bind, letter_view}

module _ (platform : Platform) (app : App) where
  -- The application after a replay.
  abbrev marked : ℕ → ℕ → App
  marked id now = record app { dead_letters = mark_replayed id now app.dead_letters }

  abbrev listing : Request → Reply
  listing request =
      bind
        (list_dead_letters platform.letter_order (lookup "source" request.query) true (pos 200)
          app.dead_letters)
        λ rows. answer 200 (
          json (array (letter_view platform.uuid_text platform.isoformat platform.class_name) rows))
