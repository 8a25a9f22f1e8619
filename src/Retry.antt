-- ===== src/Retry.antt =====
-- manager/retry.py. The loop of attempts is tenacity's: it is a parameter, with what its
-- documentation says of `stop_after_attempt`, `retry_if_exception_type` and `reraise`.
pub mod Instance
use null.Prelude.{ℕ, zero, suc, ◌+◌, ◌-◌, ◌<◌, ◌≤◌, ◌≡◌, Bool, true, false}
use null.Errors.{Error, is_transient}
use null.Models.{RunResult}
use null.Pipeline.{Raised, one, group, Outcome, returns, raises}

-- `RetryPolicy` of manager/registry.py
pub record RetryPolicy : Type 0 where
  pub max_attempts : ℕ
  pub initial_seconds : ℕ
  pub max_seconds : ℕ
  pub jitter_seconds : ℕ

-- A call that may be repeated: the outcome of each attempt.
abbrev pub Attempts : Type 0
Attempts = ℕ → Outcome RunResult

-- `AsyncRetrying`: the attempts are made until one returns, raises what is not to be retried, or is
-- the last. The number is that of the attempts made.
pub record AsyncRetrying : Type 0 where
  pub loop : ℕ → (Raised → Bool) → Attempts → Outcome RunResult × ℕ
  pub loop_returns :
      (max : ℕ) (retry : Raised → Bool) (fn : Attempts) (a : RunResult)
      → fn 0 ≡ returns a
      → loop max retry fn ≡ (returns a, 1)
  pub loop_stops :
      (max : ℕ) (retry : Raised → Bool) (fn : Attempts) (r : Raised)
      → fn 0 ≡ raises r
      → retry r ≡ false
      → loop max retry fn ≡ (raises r, 1)
  pub loop_last :
      (max : ℕ) (retry : Raised → Bool) (fn : Attempts) (r : Raised)
      → fn 0 ≡ raises r
      → max ≤ 1
      → loop max retry fn ≡ (raises r, 1)
  pub loop_again :
      (max : ℕ) (retry : Raised → Bool) (fn : Attempts) (r : Raised)
      → fn 0 ≡ raises r
      → retry r ≡ true
      → 1 < max
      → let (outcome, made) = loop (max - 1) retry (λ n. fn (suc n)) in
        loop max retry fn ≡ (outcome, made + 1)

-- `retry_if_exception_type((TransientError, RateLimited))`: a group is of neither type.
unfoldable pub retryable : Raised → Bool
retryable (one e) = is_transient e.cls
retryable (group es) = false

-- `with_retry`: the outcome, and the number of calls of `fn`.
unfoldable pub with_retry : AsyncRetrying → RetryPolicy → Attempts → Outcome RunResult × ℕ
with_retry retrying policy fn = retrying.loop policy.max_attempts retryable fn
