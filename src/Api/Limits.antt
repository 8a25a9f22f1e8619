-- ===== src/Api/Limits.antt =====
-- How much the lists of the API hold.
use null.Prelude.{
  ℕ, ℤ, pos, negsuc, String, ◌≤◌, ◌≡◌, ◌⊎◌, refl, Bool, List, length, arith, inl, inr, Option-cases,
  Bool-cases,
}
use null.Errors.{Error, Result, ok, Result-cases, >>=-eq-ok}
use null.Json.{Value, str}
use null.Json.Str.{to_int}
use null.Dict.{lookup}
use null.Text.{codes}
use null.Api.Auth.{Principal, has, authenticate}
use null.Api.{App, Request, Platform, require, session, min_int, or_default, limit_of}
use null.Api.Replies.{
  Reply, unauthorized, raise, answer, json, array, bind, run_view, indicator_view, letter_view,
}
use null.Repositories.{recent, lookup_rows, list_dead_letters}
use null.Repositories.Queries.{Ordering, select_rows}
use null.Repositories.Queries.Newest.{select_rows-IsNewest}
use null.Api.Handlers.{list_runs, lookup_indicators, list_dlq}

min_int-within : (m : ℤ) (bound n : ℕ) → min_int m bound ≡ pos n → n ≤ bound
min_int-within (pos m) bound n e = ground arith
min_int-within (negsuc m) bound n e = cc

limit_of-within :
    (request : Request) (default : String) (bound : ℕ) (limit : ℤ)
    → limit_of request default bound ≡ ok limit
    → (n : ℕ) → limit ≡ pos n
    → n ≤ bound
unfolding limit_of
limit_of-within request default bound limit e n is =
    let (m, read, same) =
      >>=-eq-ok (to_int (str (codes (or_default default (lookup "limit" request.query)))))
        (λ x. ok (min_int x bound)) e in
    min_int-within m bound n (ground (arith, same, is))

-- A JSON array of the views of at most `bound` rows, or no success.
abbrev pub IsShort : {A : Type 0} → (A → Value) → ℕ → Reply → Type 0
IsShort {A} view bound reply =
    ((rows : List A) × (reply ≡ answer 200 (json (array view rows))) × (length rows ≤ bound))
    ⊎ ((scope : String) × (reply ≡ unauthorized scope))
    ⊎ ((e : Error) × (reply ≡ raise e))

module _ {A : Type 0} (view : A → Value) (bound : ℕ) where
  require-IsShort :
      (app : App) (request : Request) (scope : String) (granted : Principal → Reply)
      → ((principal : Principal) → IsShort view bound (granted principal))
      → IsShort view bound (require app request scope unauthorized granted)
  unfolding require
  require-IsShort app request scope granted h =
      elim (Option-cases (authenticate app.tokens request.authorization)) [
        | inl nobody ↦ rw (nobody, require) (inr (inl (scope, refl)))
        | inr (principal, known) ↦ elim (Bool-cases (has principal scope)) [
          | inl may ↦ rw (known, may, require) (h principal)
          | inr lacks ↦ rw (known, lacks, require) (inr (inl (scope, refl)))
        ]
      ]

  session-IsShort :
      (app : App) (reply : Reply)
      → IsShort view bound reply
      → IsShort view bound (session app reply)
  session-IsShort app reply h = elim (Option-cases app.outage) [
    | inl up ↦ rw up h
    | inr (e, down) ↦ rw down (inr (inr (e, refl)))
  ]

  abbrev listing : Result (List A) → Reply
  listing rows = bind rows (λ found. answer 200 (json (array view found)))

  -- A query with a limit that is within the bound, or negative.
  query-IsShort :
      (ordering : Ordering A) (key : A → ℕ) (holds : A → Bool) (rows : List A) (limit : ℤ)
      → ((n : ℕ) → limit ≡ pos n → n ≤ bound)
      → IsShort view bound (listing (select_rows ordering key holds limit rows))
  query-IsShort ordering key holds rows (pos n) within =
      let (found, done, h) = select_rows-IsNewest ordering key holds n rows in
      rw done (inl (found, refl, omega (arith, h.within, within n refl)))
  query-IsShort ordering key holds rows (negsuc n) within =
      unfold select_rows in inr (inr (_, refl))

  limited-IsShort :
      (request : Request) (default : String) (app : App) (rest : ℤ → Reply)
      → ((limit : ℤ) → ((n : ℕ) → limit ≡ pos n → n ≤ bound) → IsShort view bound (rest limit))
      → IsShort view bound (bind (limit_of request default bound) λ limit. session app (rest limit))
  limited-IsShort request default app rest h =
      elim (Result-cases (limit_of request default bound)) [
        | inl (limit, is) ↦ rw is (
            session-IsShort app (rest limit)
              (h limit (limit_of-within request default bound limit is)))
        | inr (e, failed) ↦ rw failed (inr (inr (e, refl)))
      ]

-- Whatever is stored and whatever limit a request asks for: the runs that the API lists are at most
-- 500, the indicators 1000 and the dead letters 200, or it lists nothing and refuses or fails.
pub lists-IsShort :
    (platform : Platform) (app : App) (request : Request)
    → IsShort (run_view platform.uuid_text platform.isoformat) 500 (list_runs platform app request)
      × IsShort
          (indicator_view platform.uuid_text platform.isoformat)
          1000
          (lookup_indicators platform app request)
      × IsShort
          (letter_view platform.uuid_text platform.isoformat platform.class_name)
          200
          (list_dlq platform app request)
unfolding list_runs lookup_indicators list_dlq recent lookup_rows list_dead_letters
lists-IsShort platform app request =
    let run = run_view platform.uuid_text platform.isoformat in
    let seen = indicator_view platform.uuid_text platform.isoformat in
    let letter = letter_view platform.uuid_text platform.isoformat platform.class_name in
    (
      require-IsShort run 500 app request "read" _ λ _.
          limited-IsShort run 500 request "50" app _
            λ limit within. query-IsShort run 500 platform.run_order _ _ app.runs limit within,
      require-IsShort seen 1000 app request "read" _ λ _.
          limited-IsShort seen 1000 request "100" app _ λ limit within.
            query-IsShort seen 1000 platform.indicator_order _ _ app.indicators limit within,
      require-IsShort letter 200 app request "read" _ λ _. session-IsShort letter 200 app _ (
          query-IsShort letter 200 platform.letter_order _ _ app.dead_letters (pos 200)
            (λ n e. ground arith)),
    )
