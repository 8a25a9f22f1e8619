-- ===== src/RateLimit/Acquire.antt =====
-- `acquire`: when the loop of attempts and sleeps returns.
use null.Prelude.{ℕ, ◌-◌, ◌*◌, ◌≤◌, ◌<◌, String, ◌≡◌, refl, List, [], ◌∷◌, true, false, arith}
use null.RateLimit.Try.{TokenBucket, try_local, acquire}
use null.RateLimit.Level.{level-le-burst, level_after, try_local_self}

-- `try_local` leaves the burst as it is.
same_burst :
    (now : ℕ) (key : String) (cost : ℕ) (tb : TokenBucket)
    → (try_local now key cost tb).1.burst ≡ tb.burst
unfolding try_local
same_burst now key cost tb = ground arith

-- A task that asks for no more than the burst, and sleeps for at least the wait that the first
-- attempt returned, returns at its second attempt at the latest, if no other task takes from the
-- key in between.
pub acquire_returns :
    (now t : ℕ) (later : List ℕ) (key : String) (cost : ℕ) (tb : TokenBucket)
    → cost ≤ tb.burst
    → (try_local now key cost tb).0 ≤ (t - now) * tb.rate
    → (acquire (now ∷ t ∷ later) key cost tb).0 ≡ true
unfolding acquire
acquire_returns now t later key cost tb small slept =
    let first = try_local_self now key cost tb in
    let second = try_local_self t key cost (try_local now key cost tb).1 in
    grind (arith, first.0, first.1, second.0, level_after now t key cost tb)

-- A task that asks for more than the burst never returns, however long it sleeps and tries.
pub acquire_never :
    (nows : List ℕ) (key : String) (cost : ℕ) (tb : TokenBucket)
    → tb.burst < cost
    → (acquire nows key cost tb).0 ≡ false
unfolding acquire
acquire_never [] key cost tb large = refl
acquire_never (now ∷ nows) key cost tb large = ground (
  arith,
  (try_local_self now key cost tb).0,
  level-le-burst now key tb,
  same_burst now key cost tb,
  acquire_never nows key cost (try_local now key cost tb).1,
)
