-- ===== src/Breaker/Trip.antt =====
-- When the circuit opens, how long it stays open, and how it closes again.
use null.Prelude.{
  ℕ, ◌+◌, ◌<◌, ◌≤◌, ◌≡◌, true, false, List, [], ◌∷◌, map, length, All, arith, leb, Bool-cases, inl,
  inr, if◌then◌else◌,
}
use null.Errors.{ok}
use null.Breaker.{closed, opened, half_open, CircuitBreaker, before, on_success, on_failure}
use null.Breaker.Calls.{Call, call_before, call_success, call_failure, call, run_calls, admissions}

-- Consecutive failures at the given clock readings.
abbrev pub failing : List ℕ → List Call
failing [] = []
failing (t ∷ ts) = call_failure t ∷ failing ts

failures-failing :
    (ts : List ℕ) (b : CircuitBreaker)
    → (run_calls (failing ts) b).failures ≡ b.failures + length ts
unfolding run_calls call on_failure
failures-failing [] b = omega arith
failures-failing (t ∷ ts) b = ground (arith, failures-failing ts (call (call_failure t) b))

opened-failing :
    (ts : List ℕ) (b : CircuitBreaker)
    → b.state ≡ opened
    → b.policy.failure_threshold ≤ b.failures
    → (run_calls (failing ts) b).state ≡ opened
unfolding run_calls call on_failure
opened-failing [] b s h = s
opened-failing (t ∷ ts) b s h =
    opened-failing ts (call (call_failure t) b) (ground arith) (ground arith)

state-failing :
    (ts : List ℕ) (b : CircuitBreaker)
    → b.state ≡ closed
    → b.failures < b.policy.failure_threshold
    → (run_calls (failing ts) b).state
      ≡ (if leb b.policy.failure_threshold (b.failures + length ts) then opened else closed)
unfolding run_calls call on_failure
state-failing [] b s h = ground arith
state-failing (t ∷ ts) b s h = elim (Bool-cases (leb b.policy.failure_threshold (b.failures + 1))) [
  | inl trips ↦ ground (arith, opened-failing ts (call (call_failure t) b))
  | inr stays ↦ ground (arith, state-failing ts (call (call_failure t) b))
]

-- From a closed circuit: consecutive failures open it exactly when the failures counted so far and
-- the new ones together reach the threshold; fewer leave it closed. Every one of them is counted.
pub failing-opens :
    (ts : List ℕ) (b : CircuitBreaker)
    → b.state ≡ closed
    → b.failures < b.policy.failure_threshold
    → let b' = run_calls (failing ts) b in
      (b'.state
        ≡ (if leb b.policy.failure_threshold (b.failures + length ts) then opened else closed))
      × (b'.failures ≡ b.failures + length ts)
failing-opens ts b s h = (state-failing ts b s h, failures-failing ts b)

-- Calls that come before the recovery time of a circuit opened at `since` is over: no success, and
-- a failure of a run that was under way opens it anew, later.
abbrev pub DuringOutage : ℕ → ℕ → List Call → Type 0
DuringOutage recovery since [] = Unit
DuringOutage recovery since (call_before now ∷ cs) =
    (now < since + recovery) × DuringOutage recovery since cs
DuringOutage recovery since (call_success ∷ cs) = ⊥
DuringOutage recovery since (call_failure now ∷ cs) = (since ≤ now) × DuringOutage recovery now cs

-- While an open circuit waits for recovery no caller passes and it stays open, whatever the
-- interleaving of attempts and of failures of runs still under way, and each such failure restarts
-- the wait.
pub outage_rejects :
    (cs : List Call) (b : CircuitBreaker)
    → b.state ≡ opened
    → b.policy.failure_threshold ≤ b.failures
    → DuringOutage b.policy.recovery_seconds b.opened_at cs
    → All (λ passed. passed ≡ false) (admissions cs b) × ((run_calls cs b).state ≡ opened)
unfolding run_calls admissions call before on_failure
outage_rejects [] b s f h = (tt, s)
outage_rejects (call_before now ∷ cs) b s f h =
    ground (arith, outage_rejects cs (call (call_before now) b))
outage_rejects (call_success ∷ cs) b s f h = absurd h
outage_rejects (call_failure now ∷ cs) b s f h =
    ground (arith, outage_rejects cs (call (call_failure now) b))

-- Once `recovery_seconds` have passed an open circuit lets the caller pass and is half-open. The
-- next failure opens it again at once, whatever the threshold, with the wait started anew; the
-- next success closes it with no failure counted.
pub recovery :
    (now later : ℕ) (b : CircuitBreaker)
    → b.state ≡ opened
    → b.opened_at + b.policy.recovery_seconds ≤ now
    → let (r, b') = before now b in
      (r ≡ ok tt)
      × (b'.state ≡ half_open)
      × ((on_failure later b').state ≡ opened)
      × ((on_failure later b').opened_at ≡ later)
      × ((on_success b').state ≡ closed)
      × ((on_success b').failures ≡ 0)
unfolding before on_failure on_success
recovery now later b s h = ground arith

-- A half-open circuit admits every caller, at any time and however many there are, and attempts
-- alone neither close nor open it: it does not limit the trial to one run.
pub half_open_unlimited :
    (nows : List ℕ) (b : CircuitBreaker)
    → b.state ≡ half_open
    → All (λ passed. passed ≡ true) (admissions (map call_before nows) b)
      × ((run_calls (map call_before nows) b).state ≡ half_open)
unfolding run_calls admissions call before
half_open_unlimited [] b s = (tt, s)
half_open_unlimited (now ∷ nows) b s =
    ground (arith, half_open_unlimited nows (call (call_before now) b))
