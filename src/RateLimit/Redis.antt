-- ===== src/RateLimit/Redis.antt =====
-- `_try_redis` of core/ratelimit.py and its Lua script. Redis runs the script as one step on the
-- hash of a key, which all workers share. HMSET writes a number with all its digits, but `tostring`
-- rounds it: what `float` reads of that text is a parameter.
use null.Prelude.{
  ℕ, ◌+◌, ◌-◌, ◌*◌, ◌≤◌, ◌<◌, min, String, ◌≡◌, refl, ◌⊎◌, ap, ◌∙◌, Bool-cases, inl, inr, Option,
  none, some, Bool, false, arith, leb, ◌==◌, if◌then◌else◌,
}
use native.Mathlib.Nat.{mul-le-mul_right}
use null.Dict.{lookup, lookup-insert_self}
use null.RateLimit.Try.{Bucket, TokenBucket, nanos, bucket_of, refill, try_local}

-- The fields 't' and 'u', and when the hash expires on the clock of Redis.
pub record Hash : Type 0 where
  pub tokens : ℕ
  pub updated : ℕ
  pub expires_at : ℕ

-- `HMGET`: a hash that has expired is not there.
abbrev pub unexpired : ℕ → Option Hash → Option Hash
unexpired redis_now none = none
unexpired redis_now (some h) = if leb h.expires_at redis_now then none else some h

abbrev loaded : ℕ → ℕ → Option Hash → ℕ × ℕ
loaded now cap none = (cap, now)
loaded now cap (some h) = (h.tokens, h.updated)

module _ (tostring : ℕ → ℕ) where
  -- `_LUA`, at the clock reading `redis_now` of Redis: whether the request is allowed, the tokens
  -- left as they are read, and the hash that is written.
  unfoldable pub lua : ℕ → ℕ → ℕ → ℕ → ℕ → Option Hash → Bool × ℕ × Hash
  lua redis_now now rate cap cost stored =
      let (tokens, updated) = loaded now cap (unexpired redis_now stored) in
      let delta = now - updated in
      let refilled = min cap (tokens + delta * rate) in
      let left = if leb cost refilled then refilled - cost else refilled in
      (
        leb cost refilled,
        tostring left,
        record { tokens = left; updated = now; expires_at = redis_now + 3600 * nanos },
      )

  -- `_try_redis`: the wait, times the rate.
  unfoldable pub try_redis : ℕ → ℕ → ℕ → TokenBucket → Option Hash → ℕ × Hash
  unfolding lua
  try_redis redis_now now cost tb stored =
      let (allowed, tokens, written) = lua redis_now now tb.rate tb.burst cost stored in
      (if allowed then 0 else cost - tokens, written)

-- A bucket in process and a hash in Redis that hold the same tokens since the same time.
abbrev pub SameTokens : Option Bucket → Option Hash → Type 0
SameTokens none none = Unit
SameTokens (some b) (some h) = (b.tokens ≡ h.tokens) × (b.updated_at ≡ h.updated)
SameTokens _ _ = ⊥

-- A hash has not expired, or was idle for an hour.
abbrev pub IsTimely : ℕ → ℕ → Option Hash → Type 0
IsTimely redis_now now none = Unit
IsTimely redis_now now (some h) = (redis_now < h.expires_at) ⊎ (h.updated + 3600 * nanos ≤ now)

-- What the hash and the bucket in process are refilled to.
abbrev level : ℕ → TokenBucket → ℕ × ℕ → ℕ
level now tb (tokens, updated) = min tb.burst (tokens + (now - updated) * tb.rate)

-- After an hour the bucket is full, so that a hash that has expired makes no difference.
level_idle :
    (now : ℕ) (tb : TokenBucket) (tokens updated : ℕ)
    → updated + 3600 * nanos ≤ now
    → tb.burst ≤ 3600 * nanos * tb.rate
    → level now tb (tokens, updated) ≡ level now tb (tb.burst, now)
level_idle now tb tokens updated idle full =
    let elapsed : 3600 * nanos * tb.rate ≤ (now - updated) * tb.rate =
      mul-le-mul_right tb.rate (omega arith) in
    omega arith

level-loaded :
    (redis_now now : ℕ) (tb : TokenBucket) (h : Hash)
    → (redis_now < h.expires_at) ⊎ (h.updated + 3600 * nanos ≤ now)
    → tb.burst ≤ 3600 * nanos * tb.rate
    → level now tb (loaded now tb.burst (unexpired redis_now (some h)))
      ≡ level now tb (h.tokens, h.updated)
level-loaded redis_now now tb h (inl alive) full = ground arith
level-loaded redis_now now tb h (inr idle) full =
    ground (arith, level_idle now tb h.tokens h.updated)

same_level :
    (redis_now now : ℕ) (tb : TokenBucket) (held : Option Bucket) (stored : Option Hash)
    → SameTokens held stored
    → IsTimely redis_now now stored
    → tb.burst ≤ 3600 * nanos * tb.rate
    → level now tb (loaded now tb.burst (unexpired redis_now stored))
      ≡ (refill now (bucket_of now held tb) tb).tokens
same_level redis_now now tb none none h timely full = refl
same_level redis_now now tb none (some s) h timely full = elim h [ ]
same_level redis_now now tb (some b) none h timely full = elim h [ ]
same_level redis_now now tb (some b) (some s) (tokens, updated) timely full =
    level-loaded redis_now now tb s timely full
    ∙ ap (level now tb) {x = (s.tokens, s.updated)} {y = (b.tokens, b.updated_at)}
        (cc (tokens, updated))

-- A wait names the tokens that there were.
short_wait :
    (tostring : ℕ → ℕ) (cost n : ℕ)
    → leb cost n ≡ false
    → cost - tostring n ≡ (if cost - n == 0 then 0 else cost - tostring (cost - (cost - n)))
short_wait tostring cost n short =
    let some_wait : (cost - n == 0) ≡ false = ground (arith, short) in
    let more : n < cost = ground (arith, short) in
    let back : cost - (cost - n) ≡ n = omega arith in rw (some_wait, back) refl

-- One request with the script and one with the bucket in process, at the same clock reading and
-- from the same tokens, where the hash has not expired or was idle for an hour, and an hour fills the
-- bucket: they leave the same tokens. Where the bucket lets the request pass so does the script;
-- where the bucket lets it wait, the wait with Redis is the cost less the tokens that there are, as
-- `tostring` rounds them. The hash that is written expires an hour later.
pub try_redis-eq-try_local :
    (tostring : ℕ → ℕ) (redis_now now : ℕ) (key : String) (cost : ℕ) (tb : TokenBucket)
    (stored : Option Hash)
    → SameTokens (lookup key tb.buckets) stored
    → IsTimely redis_now now stored
    → tb.burst ≤ 3600 * nanos * tb.rate
    → let (wait, tb') = try_local now key cost tb in
      let (wait', written) = try_redis tostring redis_now now cost tb stored in
      (wait' ≡ (if wait == 0 then 0 else cost - tostring (cost - wait)))
      × SameTokens (lookup key tb'.buckets) (some written)
      × (written.expires_at ≡ redis_now + 3600 * nanos)
unfolding try_redis try_local
try_redis-eq-try_local tostring redis_now now key cost tb stored h timely full =
    let b = refill now (bucket_of now (lookup key tb.buckets) tb) tb in
    let same = same_level redis_now now tb (lookup key tb.buckets) stored h timely full in
    elim (Bool-cases (leb cost b.tokens)) [
      | inl enough ↦
          rw (same, enough)
            (
              refl,
              rw (lookup-insert_self key (record b { tokens = b.tokens - cost }) tb.buckets)
                  (refl, refl),
              refl,
            )
      | inr short ↦
          rw (same, short)
            (
              short_wait tostring cost b.tokens short,
              rw (lookup-insert_self key b tb.buckets) (refl, refl),
              refl,
            )
    ]
