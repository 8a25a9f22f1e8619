-- ===== src/RateLimit/Tests.antt =====
-- Tests of the rate limiter, and its theorems at inputs that meet their hypotheses.
use null.Prelude.{
  ◌≤◌, ℕ, ◌/◌, ◌==◌, if◌then◌else◌, inr, ◌+◌, ◌-◌, ◌*◌, ◌≡◌, refl, false, some, List, [], ◌∷◌,
  arith,
}
use null.Dict.{lookup, insert}
use null.RateLimit.Try.{TokenBucket, nanos, one_token, try_local, acquire}
use null.RateLimit.Conformance.{Attempt, granted, granted_bound}
use null.RateLimit.Redis.{Hash, try_redis, SameTokens, try_redis-eq-try_local}

-- Two tokens a second, and a burst of two.
abbrev bucket : TokenBucket
bucket = record { rate = 2 * nanos; burst = 2 * one_token; buckets = [] }

abbrev attempts : List Attempt
attempts =
    record { now = 0; key = "a"; cost = one_token }
    ∷ record { now = 1; key = "b"; cost = one_token }
    ∷ record { now = 2; key = "a"; cost = one_token }
    ∷ record { now = 3; key = "a"; cost = one_token }
    ∷ []

third_waits : (acquire (0 ∷ 500000000 ∷ []) "a" (3 * one_token) bucket).0 ≡ false
unfolding acquire try_local lookup insert
third_waits = refl

granted_bound_example : granted "a" attempts bucket ≤ bucket.burst + (nanos - 0) * bucket.rate
granted_bound_example = granted_bound "a" 0 attempts nanos bucket (omega arith)

-- A text of 14 digits: the last four digits of the amount are lost.
abbrev tostring : ℕ → ℕ
tostring n = n / 10000 * 10000

-- The hash was written an hour and more ago, and has expired.
abbrev idle : Hash
idle = record { tokens = 5; updated = 0; expires_at = 3600 * nanos }

abbrev waiting : TokenBucket
waiting = record bucket {
  buckets =
      ("a", record { capacity = bucket.burst; rate = bucket.rate; tokens = 5; updated_at = 0 })
      ∷ [];
}

try_redis-eq-try_local_example :
    let (wait, tb') = try_local (3601 * nanos) "a" one_token waiting in
    let (wait', written) =
      try_redis tostring (3602 * nanos) (3601 * nanos) one_token waiting (some idle) in
    (wait' ≡ (if wait == 0 then 0 else one_token - tostring (one_token - wait)))
    × SameTokens (lookup "a" tb'.buckets) (some written)
    × (written.expires_at ≡ 3602 * nanos + 3600 * nanos)
unfolding lookup
try_redis-eq-try_local_example =
    try_redis-eq-try_local tostring (3602 * nanos) (3601 * nanos) "a" one_token waiting (some idle)
      (refl, refl) (inr (omega arith)) (omega arith)
