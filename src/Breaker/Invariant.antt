-- ===== src/Breaker/Invariant.antt =====
-- What holds of a breaker after any calls in any order.
use null.Prelude.{ℕ, ◌<◌, ◌≤◌, ◌≡◌, ◌⊎◌, String, none, some, List, [], ◌∷◌, arith}
use null.Breaker.{
  CircuitState, closed, opened, half_open, CircuitPolicy, CircuitBreaker, new_breaker, metric_value,
  before, on_success, on_failure,
}
use null.Breaker.Calls.{Call, call_before, call_success, call_failure, call, run_calls}

-- The counter is below the threshold exactly while the circuit is closed.
abbrev pub Counted : CircuitState → ℕ → ℕ → Type 0
Counted closed failures threshold = failures < threshold
Counted opened failures threshold = threshold ≤ failures
Counted half_open failures threshold = threshold ≤ failures

pub record IsConsistent (source_id : String) (policy : CircuitPolicy) (b : CircuitBreaker)
    : Type 0 where
  pub same_source : b.source_id ≡ source_id
  pub same_policy : b.policy ≡ policy
  pub counted : Counted b.state b.failures policy.failure_threshold
  pub gauge : (b.metric ≡ none) ⊎ (b.metric ≡ some (metric_value b.state))

module _ (source_id : String) (policy : CircuitPolicy)
    (positive : 0 < policy.failure_threshold) where
  call-IsConsistent :
      (c : Call) (b : CircuitBreaker)
      → IsConsistent source_id policy b
      → IsConsistent source_id policy (call c b)
  unfolding call before on_success on_failure
  call-IsConsistent (call_before now) b h = ground arith
  call-IsConsistent call_success b h = ground arith
  call-IsConsistent (call_failure now) b h = ground arith

  run_calls-IsConsistent :
      (cs : List Call) (b : CircuitBreaker)
      → IsConsistent source_id policy b
      → IsConsistent source_id policy (run_calls cs b)
  unfolding run_calls
  run_calls-IsConsistent [] b h = h
  run_calls-IsConsistent (c ∷ cs) b h =
      run_calls-IsConsistent cs (call c b) (call-IsConsistent c b h)

  -- With a positive threshold: whatever calls a new breaker has seen, its source and policy are
  -- unchanged, its circuit is closed exactly while the failures counted are below the threshold,
  -- and the gauge, once set, shows the present state.
  pub new_breaker-IsConsistent :
      (cs : List Call) → IsConsistent source_id policy (run_calls cs (new_breaker source_id policy))
  unfolding new_breaker
  new_breaker-IsConsistent cs =
      run_calls-IsConsistent cs (new_breaker source_id policy) (ground arith)
