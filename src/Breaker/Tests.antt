-- ===== src/Breaker/Tests.antt =====
-- Tests of the circuit breaker, and its theorems at inputs that meet their hypotheses.
use null.Prelude.{◌≡◌, refl, true, false, [], ◌∷◌, arith, some}
use null.Breaker.{
  closed, CircuitPolicy, CircuitBreaker, new_breaker, before, on_success, on_failure,
}
use null.Breaker.Calls.{call_before, call_success, call_failure, call, run_calls, admissions}
use null.Breaker.Invariant.{IsConsistent, new_breaker-IsConsistent}

abbrev policy : CircuitPolicy
policy = record { failure_threshold = 2; recovery_seconds = 300 }

abbrev fresh : CircuitBreaker
fresh = record {
  source_id = "feed";
  policy = policy;
  state = closed;
  failures = 0;
  opened_at = 0;
  metric = some 0;
}

trips_and_recovers :
    admissions
      (call_before 5
        ∷ call_failure 10
        ∷ call_before 15
        ∷ call_failure 20
        ∷ call_before 319
        ∷ call_before 320
        ∷ call_success
        ∷ call_before 321
        ∷ [])
      fresh
    ≡ true ∷ true ∷ false ∷ true ∷ true ∷ []
unfolding admissions call before on_failure on_success
trips_and_recovers = refl

new_breaker-IsConsistent_example : IsConsistent "feed" policy (
    run_calls
      (call_failure 10 ∷ call_failure 20 ∷ call_before 400 ∷ [])
      (new_breaker "feed" policy))
new_breaker-IsConsistent_example =
    new_breaker-IsConsistent "feed" policy (omega arith)
      (call_failure 10 ∷ call_failure 20 ∷ call_before 400 ∷ [])
