-- ===== src/RateLimit/Try.antt =====
-- `TokenBucket` of core/ratelimit.py without Redis.
use null.Prelude.{
  ℕ, ◌+◌, ◌-◌, ◌*◌, min, max, String, Option, none, some, List, [], ◌∷◌, Bool, true, false, leb,
  ◌==◌, if◌then◌else◌,
}
use null.Dict.{Dict, lookup, insert}
use null.Errors.{Result, ok, err, value_error}

abbrev pub nanos : ℕ
nanos = 1000000000

-- The amount that the source calls 1.0 token.
abbrev pub one_token : ℕ
one_token = 1000000000000000000

-- `_Bucket`
pub record Bucket : Type 0 where
  pub capacity : ℕ
  pub rate : ℕ
  pub tokens : ℕ
  pub updated_at : ℕ

pub record TokenBucket : Type 0 where
  pub rate : ℕ
  pub burst : ℕ
  -- `_local`
  pub buckets : Dict Bucket

abbrev burst_or_default : ℕ → Option ℕ → ℕ
burst_or_default rate none = max one_token (rate * nanos)
burst_or_default rate (some burst) = burst

-- `TokenBucket.__init__`
unfoldable pub new_token_bucket : ℕ → Option ℕ → Result TokenBucket
new_token_bucket rate burst =
    if rate == 0
    then err (record { cls = value_error; message = "rate_per_sec must be > 0" })
    else ok (record { rate = rate; burst = burst_or_default rate burst; buckets = [] })

-- The bucket of a key, made full when the key is new.
abbrev pub bucket_of : ℕ → Option Bucket → TokenBucket → Bucket
bucket_of now none tb = record {
  capacity = tb.burst;
  rate = tb.rate;
  tokens = tb.burst;
  updated_at = now;
}
bucket_of now (some b) tb = b

-- `max(0.0, now - updated_at)` is the subtraction of ℕ.
abbrev pub refill : ℕ → Bucket → TokenBucket → Bucket
refill now b tb = record b {
  tokens = min tb.burst (b.tokens + (now - b.updated_at) * tb.rate);
  updated_at = now;
}

-- `_try_local` at the clock reading `now`. The wait that the source returns is the result divided
-- by the rate, in nanoseconds: 0 means that the tokens were taken.
unfoldable pub try_local : ℕ → String → ℕ → TokenBucket → ℕ × TokenBucket
try_local now key cost tb =
    let b = refill now (bucket_of now (lookup key tb.buckets) tb) tb in
    if leb cost b.tokens
    then (0, record tb { buckets = insert key (record b { tokens = b.tokens - cost }) tb.buckets })
    else (cost - b.tokens, record tb { buckets = insert key b tb.buckets })

-- `acquire`, given the clock readings of its attempts: true if it returned within them.
unfoldable pub acquire : List ℕ → String → ℕ → TokenBucket → Bool × TokenBucket
acquire [] key cost tb = (false, tb)
acquire (now ∷ nows) key cost tb =
    let (wait, tb') = try_local now key cost tb in
    let rest = acquire nows key cost tb' in if wait == 0 then (true, tb') else rest
