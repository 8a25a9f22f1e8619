-- ===== src/RateLimit/Level.antt =====
-- The abstract bucket: for each key a level of tokens that rises with time up to `burst`.
use null.Prelude.{
  ℕ, ◌+◌, ◌-◌, ◌*◌, ◌≤◌, min, String, ◌≡◌, ◌≢◌, Option, none, some, arith, leb, inl, inr,
  Option-cases, if◌then◌else◌,
}
use native.Mathlib.Nat.{add-mul, mul-le-mul_right}
use null.Dict.{lookup, insert, lookup-insert_self, lookup-insert_ne}
use null.RateLimit.Try.{Bucket, TokenBucket, bucket_of, refill, try_local}

abbrev level_of : ℕ → Option Bucket → TokenBucket → ℕ
level_of now none tb = tb.burst
level_of now (some b) tb = min tb.burst (b.tokens + (now - b.updated_at) * tb.rate)

-- The tokens that a caller finds under `key` at time `now`.
pub level : ℕ → String → TokenBucket → ℕ
level now key tb = level_of now (lookup key tb.buckets) tb

pub level-le-burst : (now : ℕ) (key : String) (tb : TokenBucket) → level now key tb ≤ tb.burst
unfolding level
level-le-burst now key tb = ground arith

-- The level at `now` of a key whose bucket was written at `now`.
level-insert_self :
    (now : ℕ) (key : String) (b : Bucket) (tb : TokenBucket)
    → b.updated_at ≡ now
    → b.tokens ≤ tb.burst
    → level now key (record tb { buckets = insert key b tb.buckets }) ≡ b.tokens
unfolding level
level-insert_self now key b tb e h = rw lookup-insert_self (grind arith)

level-insert_ne :
    (at : ℕ) (key other : String) (b : Bucket) (tb : TokenBucket)
    → key ≢ other
    → level at other (record tb { buckets = insert key b tb.buckets }) ≡ level at other tb
unfolding level
level-insert_ne at key other b tb ne = grind (arith, lookup-insert_ne key other b tb.buckets ne)

-- What the refilled bucket of a key holds is the level.
tokens-refill :
    (now : ℕ) (key : String) (tb : TokenBucket)
    → (refill now (bucket_of now (lookup key tb.buckets) tb) tb).tokens ≡ level now key tb
unfolding level
tokens-refill now key tb = elim (Option-cases (lookup key tb.buckets)) [
  | inl new ↦ rw new (omega arith)
  | inr (b, old) ↦ rw old
]

module _ (now : ℕ) (key : String) (cost : ℕ) (tb : TokenBucket) where
  pub try_local_self :
      let l = level now key tb in
      let (wait, tb') = try_local now key cost tb in
      (wait ≡ cost - l) × (level now key tb' ≡ (if leb cost l then l - cost else l))
  unfolding try_local
  try_local_self =
      let b = refill now (bucket_of now (lookup key tb.buckets) tb) tb in
      ground (
        arith,
        tokens-refill now key tb,
        level-le-burst now key tb,
        level-insert_self now key b tb,
        level-insert_self now key (record b { tokens = b.tokens - cost }) tb,
      )

  pub try_local_ne :
      (at : ℕ) (other : String)
      → key ≢ other
      → level at other (try_local now key cost tb).1 ≡ level at other tb
  unfolding try_local
  try_local_ne at other ne =
      let b = refill now (bucket_of now (lookup key tb.buckets) tb) tb in
      ground (
        arith,
        level-insert_ne at key other b tb,
        level-insert_ne at key other (record b { tokens = b.tokens - cost }) tb,
      )

-- One attempt against the abstract bucket: it takes `cost` and returns 0 if the level covers it,
-- and otherwise takes nothing and returns the part that is missing; the levels of the other keys
-- stay as they were, at every time.
pub try_local_lem :
    (now at : ℕ) (key other : String) (cost : ℕ) (tb : TokenBucket)
    → key ≢ other
    → let l = level now key tb in
      let (wait, tb') = try_local now key cost tb in
      (wait ≡ cost - l)
      × (level now key tb' ≡ (if leb cost l then l - cost else l))
      × (level at other tb' ≡ level at other tb)
try_local_lem now at key other cost tb ne = (
  (try_local_self now key cost tb).0,
  (try_local_self now key cost tb).1,
  try_local_ne now key cost tb at other ne,
)

mul_le_add : (a b c r : ℕ) → a ≤ b + c → a * r ≤ b * r + c * r
mul_le_add a b c r h = rw (← add-mul b c r) (mul-le-mul_right r h)

-- Between two times with no attempt the level rises by at most the rate.
pub level_rises :
    (t t' : ℕ) (key : String) (tb : TokenBucket)
    → t ≤ t'
    → level t' key tb ≤ level t key tb + (t' - t) * tb.rate
unfolding level
level_rises t t' key tb h = elim (Option-cases (lookup key tb.buckets)) [
  | inl new ↦ rw new (omega arith)
  | inr (b, old) ↦ rw old (rises b)
]
  where
    rises :
        (b : Bucket)
        → min tb.burst (b.tokens + (t' - b.updated_at) * tb.rate)
          ≤ min tb.burst (b.tokens + (t - b.updated_at) * tb.rate) + (t' - t) * tb.rate
    rises b =
        omega
          (arith, mul_le_add (t' - b.updated_at) (t - b.updated_at) (t' - t) tb.rate (omega arith))

-- After an attempt at `now` the level rises by the rate, up to the burst.
pub level_after :
    (now t : ℕ) (key : String) (cost : ℕ) (tb : TokenBucket)
    → let tb' = (try_local now key cost tb).1 in
      level t key tb' ≡ min tb.burst (level now key tb' + (t - now) * tb.rate)
unfolding level try_local
level_after now t key cost tb =
    let b = refill now (bucket_of now (lookup key tb.buckets) tb) tb in
    grind (
      arith,
      lookup-insert_self key b tb.buckets,
      lookup-insert_self key (record b { tokens = b.tokens - cost }) tb.buckets,
    )
