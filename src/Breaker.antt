-- ===== src/Breaker.antt =====
-- manager/circuit_breaker.py: the per-source circuit breaker and the registry of breakers.
-- Readings of the monotonic clock and `recovery_seconds` are whole numbers of one small tick.
pub mod Calls
pub mod Invariant
pub mod Trip
pub mod Registry
mod Tests
use null.Prelude.{
  ℕ, ◌+◌, String, str_append, Bool, true, false, ◌||◌, Option, none, some, leb, if◌then◌else◌,
}
use null.Dict.{Dict, lookup, insert}
use null.Errors.{Result, ok, err, circuit_open}

pub data CircuitState : Type 0 where
  closed opened half_open : CircuitState

-- `CircuitPolicy` of manager/registry.py
pub record CircuitPolicy : Type 0 where
  pub failure_threshold : ℕ
  pub recovery_seconds : ℕ

pub record CircuitBreaker : Type 0 where
  pub source_id : String
  pub policy : CircuitPolicy
  pub state : CircuitState
  pub failures : ℕ
  pub opened_at : ℕ
  -- the gauge that `_record_metric` sets
  pub metric : Option ℕ

-- `CircuitBreaker.__init__`
unfoldable pub new_breaker : String → CircuitPolicy → CircuitBreaker
new_breaker source_id policy = record {
  source_id = source_id;
  policy = policy;
  state = closed;
  failures = 0;
  opened_at = 0;
  metric = none;
}

abbrev pub metric_value : CircuitState → ℕ
metric_value closed = 0
metric_value half_open = 1
metric_value opened = 2

-- `_record_metric`
unfoldable pub record_metric : CircuitBreaker → CircuitBreaker
record_metric b = record b { metric = some (metric_value b.state) }

abbrev is_open : CircuitState → Bool
is_open opened = true
is_open _ = false

abbrev is_half_open : CircuitState → Bool
is_half_open half_open = true
is_half_open _ = false

-- `before`, at the clock reading `now`
unfoldable pub before : ℕ → CircuitBreaker → Result (Unit {0}) × CircuitBreaker
unfolding record_metric
before now b =
    if is_open b.state
    then (if leb (b.opened_at + b.policy.recovery_seconds) now
        then (ok tt, record_metric (record b { state = half_open }))
        else (
          err (record {
            cls = circuit_open;
            message = str_append "circuit open for source " b.source_id;
          }),
          record_metric b,
        ))
    else (ok tt, record_metric b)

unfoldable pub on_success : CircuitBreaker → CircuitBreaker
unfolding record_metric
on_success b = record_metric (record b { failures = 0; state = closed })

-- `on_failure`, at the clock reading `now`
unfoldable pub on_failure : ℕ → CircuitBreaker → CircuitBreaker
unfolding record_metric
on_failure now b =
    let failures = b.failures + 1 in
    if is_half_open b.state || leb b.policy.failure_threshold failures
    then record_metric (record b { failures = failures; state = opened; opened_at = now })
    else record_metric (record b { failures = failures })

-- `BreakerRegistry`
abbrev pub BreakerRegistry : Type 0
BreakerRegistry = Dict CircuitBreaker

-- `BreakerRegistry.get`
unfoldable pub get_breaker :
    String → CircuitPolicy → BreakerRegistry → CircuitBreaker × BreakerRegistry
unfolding new_breaker
get_breaker source_id policy store = elim (lookup source_id store) [
  | none ↦ let breaker = new_breaker source_id policy in (breaker, insert source_id breaker store)
  | some breaker ↦ (breaker, store)
]
