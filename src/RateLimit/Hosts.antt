-- ===== src/RateLimit/Hosts.antt =====
-- `HostRateLimiter`: one token bucket for the hosts with an override, one for all others.
use null.Prelude.{
  ℕ, ◌<◌, ◌*◌, max, String, ◌≡◌, ◌≢◌, Option, none, some, [], ◌∷◌, arith, inl, inr, Option-cases,
}
use null.Dict.{Dict, lookup, insert, lookup-insert_ne}
use null.Errors.{Result, ok, ◌>>=◌, >>=-eq-ok}
use null.RateLimit.Try.{TokenBucket, nanos, one_token, new_token_bucket, try_local}
use null.RateLimit.Level.{level, try_local_ne}

pub record HostRateLimiter : Type 0 where
  pub default : TokenBucket
  pub buckets : Dict TokenBucket

-- The comprehension over `overrides.items()`.
unfoldable pub override_buckets : Dict ℕ → Result (Dict TokenBucket)
override_buckets [] = ok []
override_buckets ((host, rps) ∷ overrides) = do
  bucket ← new_token_bucket rps none
  buckets ← override_buckets overrides
  ok ((host, bucket) ∷ buckets)

-- `HostRateLimiter.__init__`
unfoldable pub new_host_limiter : ℕ → Dict ℕ → Result HostRateLimiter
unfolding override_buckets
new_host_limiter default_rps overrides = do
  default ← new_token_bucket default_rps none
  buckets ← override_buckets overrides
  ok (record { default = default; buckets = buckets })

-- One attempt of `HostRateLimiter.acquire`.
unfoldable pub try_host : ℕ → String → ℕ → HostRateLimiter → ℕ × HostRateLimiter
try_host now host cost limiter = elim (lookup host limiter.buckets) [
  | none ↦
      let (wait, tb) = try_local now host cost limiter.default in
      (wait, record limiter { default = tb })
  | some bucket ↦
      let (wait, tb) = try_local now host cost bucket in
      (wait, record limiter { buckets = insert host tb limiter.buckets })
]

abbrev pub bucket_for : Option TokenBucket → HostRateLimiter → TokenBucket
bucket_for none limiter = limiter.default
bucket_for (some bucket) limiter = bucket

-- The tokens that a request to `host` finds at time `at`.
pub host_level : ℕ → String → HostRateLimiter → ℕ
host_level at host limiter = level at host (bucket_for (lookup host limiter.buckets) limiter)

-- Requests to one host take nothing from another host, whether the hosts have overrides or share
-- the default bucket.
pub hosts_independent :
    (now at : ℕ) (host other : String) (cost : ℕ) (limiter : HostRateLimiter)
    → host ≢ other
    → host_level at other (try_host now host cost limiter).1 ≡ host_level at other limiter
unfolding host_level try_host
hosts_independent now at host other cost limiter ne =
    elim (Option-cases (lookup host limiter.buckets)) [
      | inl default ↦ ground (arith, try_local_ne now host cost limiter.default at other ne)
      | inr (bucket, found) ↦
          let tb = (try_local now host cost bucket).1 in
          ground (arith, lookup-insert_ne host other tb limiter.buckets ne)
    ]

-- The rate and the burst of a bucket that was made for `rps`.
abbrev pub IsLimitedTo : ℕ → TokenBucket → Type 0
IsLimitedTo rps tb = (tb.rate ≡ rps) × (0 < rps) × (tb.burst ≡ max one_token (rps * nanos))

abbrev pub rate_for : Option ℕ → ℕ → ℕ
rate_for none default_rps = default_rps
rate_for (some rps) default_rps = rps

new_token_bucket_limits :
    (rps : ℕ) (tb : TokenBucket) → new_token_bucket rps none ≡ ok tb → IsLimitedTo rps tb
unfolding new_token_bucket
new_token_bucket_limits rps tb e = ground arith

-- The bucket of an override, or no bucket where there is no override.
abbrev SameEntry : Option ℕ → Option TokenBucket → Type 0
SameEntry none none = Unit
SameEntry (some rps) (some tb) = IsLimitedTo rps tb
SameEntry _ _ = ⊥

override_buckets_entries :
    (host : String) (overrides : Dict ℕ) (buckets : Dict TokenBucket)
    → override_buckets overrides ≡ ok buckets
    → SameEntry (lookup host overrides) (lookup host buckets)
unfolding override_buckets lookup
override_buckets_entries host [] buckets e = ground arith
override_buckets_entries host ((h, rps) ∷ overrides) buckets e =
    grind (arith, new_token_bucket_limits rps, override_buckets_entries host overrides)

entry_limits :
    (o : Option ℕ) (p : Option TokenBucket) (default_rps : ℕ) (limiter : HostRateLimiter)
    → IsLimitedTo default_rps limiter.default
    → SameEntry o p
    → IsLimitedTo (rate_for o default_rps) (bucket_for p limiter)
entry_limits none none default_rps limiter d h = d
entry_limits (some rps) (some tb) default_rps limiter d h = h
entry_limits none (some tb) default_rps limiter d h = absurd h
entry_limits (some rps) none default_rps limiter d h = absurd h

-- A limiter is made only if the default rate and all overrides are positive, and then a host with
-- an override is limited to the override's rate and every other host to the default rate, with a
-- burst of one token or one second's worth, whichever is more.
pub limiter_rates :
    (default_rps : ℕ) (overrides : Dict ℕ) (host : String) (limiter : HostRateLimiter)
    → new_host_limiter default_rps overrides ≡ ok limiter
    → IsLimitedTo
        (rate_for (lookup host overrides) default_rps)
        (bucket_for (lookup host limiter.buckets) limiter)
unfolding new_host_limiter
limiter_rates default_rps overrides host limiter e =
    let (default, made, e') = >>=-eq-ok (new_token_bucket default_rps none) _ e in
    let (buckets, made', e'') = >>=-eq-ok (override_buckets overrides) _ e' in
    let limits = new_token_bucket_limits default_rps default made in
    entry_limits (lookup host overrides) (lookup host limiter.buckets) default_rps limiter
      (ground arith) (ground (arith, override_buckets_entries host overrides buckets))
