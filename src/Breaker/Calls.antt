-- ===== src/Breaker/Calls.antt =====
-- Sequences of calls on one breaker of manager/circuit_breaker.py, in the order of its lock.
use null.Prelude.{ℕ, Bool, true, false, List, [], ◌∷◌}
use null.Errors.{Result, ok, err}
use null.Breaker.{CircuitBreaker, before, on_success, on_failure}

-- What the runs of a source do with their breaker, each with its reading of the clock.
pub data Call : Type 0 where
  call_before : ℕ → Call
  call_success : Call
  call_failure : ℕ → Call

abbrev pub admitted : Result (Unit {0}) → Bool
admitted (ok _) = true
admitted (err _) = false

unfoldable pub call : Call → CircuitBreaker → CircuitBreaker
call (call_before now) b = (before now b).1
call call_success b = on_success b
call (call_failure now) b = on_failure now b

unfoldable pub run_calls : List Call → CircuitBreaker → CircuitBreaker
run_calls [] b = b
run_calls (c ∷ cs) b = run_calls cs (call c b)

-- For each `before` among the calls, whether it let its caller pass.
unfoldable pub admissions : List Call → CircuitBreaker → List Bool
admissions [] b = []
admissions (call_before now ∷ cs) b =
    admitted (before now b).0 ∷ admissions cs (call (call_before now) b)
admissions (call_success ∷ cs) b = admissions cs (call call_success b)
admissions (call_failure now ∷ cs) b = admissions cs (call (call_failure now) b)
