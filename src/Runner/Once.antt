-- ===== src/Runner/Once.antt =====
-- The retry loop around the pipeline never goes round.
use null.Prelude.{ℕ, ◌≡◌, refl, ap, sym, ◌∙◌, inl, inr, false, arith}
use null.Errors.{ErrorClass, is_transient, is_cti_error}
use null.Models.{RunResult}
use null.Pipeline.{Raised, one, group, flatten, PipelineEnd, Outcome, run_with_outcome}
use null.Pipeline.Mapping.{NoCtiError, Outcome-cases, run_with_outcome-raises}
use null.Retry.{RetryPolicy, AsyncRetrying, retryable, with_retry}

not_transient : (c : ErrorClass) → is_cti_error c ≡ false → is_transient c ≡ false
not_transient c h = ground arith

not_retryable : (r : Raised) → NoCtiError (flatten r) → retryable r ≡ false
unfolding retryable flatten
not_retryable (one e) h = not_transient e.cls h.0
not_retryable (group es) h = refl

-- Whatever the policy, and whatever exceptions the pipeline raises, transient ones included, the
-- pipeline is run once: `run_with_outcome` lets out no exception that is retried.
pub with_retry_once :
    (retrying : AsyncRetrying) (policy : RetryPolicy) (started ended : ℕ → ℕ)
    (ends : ℕ → PipelineEnd)
    → let run = λ (n : ℕ). run_with_outcome (started n) (ended n) (ends n) in
      with_retry retrying policy run ≡ (run 0, 1)
unfolding with_retry
with_retry_once retrying policy started ended ends =
    let run = λ (n : ℕ). run_with_outcome (started n) (ended n) (ends n) in
    elim (Outcome-cases (run_with_outcome (started 0) (ended 0) (ends 0))) [
      | inl (result, e) ↦
          retrying.loop_returns policy.max_attempts retryable run result e
          ∙ ap (λ (o : Outcome RunResult). (o, 1)) (sym e)
      | inr (raised, e) ↦
          retrying.loop_stops policy.max_attempts retryable run raised e
            (not_retryable raised (run_with_outcome-raises (started 0) (ended 0) (ends 0) raised e))
          ∙ ap (λ (o : Outcome RunResult). (o, 1)) (sym e)
    ]
