-- ===== src/Pipeline/Mapping.antt =====
-- Which exceptions leave `run_with_outcome`, and what becomes of the others.
use null.Prelude.{
  ℕ, ◌≡◌, refl, ◌++◌, ◌||◌, Bool, true, false, List, [], ◌∷◌, All, arith, inl, inr, Bool-cases, ◌⊎◌,
}
use null.Errors.{Error, ErrorClass, is_permanent, is_cti_error}
use null.Enums.{partial, failed}
use null.Models.{RunContext, RunResult}
use null.Pipeline.{
  Raised, RaisedList, one, group, nil, cons, flatten, flatten_all, any_error, PipelineEnd, finished,
  broken, Outcome, returns, raises, outcome_result, run_with_outcome,
}

-- No exception of the framework is among those raised.
abbrev pub NoCtiError : List Error → Type 0
NoCtiError = All (λ e. is_cti_error e.cls ≡ false)

any_error-false :
    (p : ErrorClass → Bool) (es : List Error)
    → any_error p es ≡ false
    → All (λ e. p e.cls ≡ false) es
unfolding any_error
any_error-false p [] h = tt
any_error-false p (e ∷ es) h = (ground arith, any_error-false p es (ground arith))

raised_again :
    (started ended : ℕ) (r : Raised) (ctx : RunContext) (raised : Raised)
    → run_with_outcome started ended (broken r ctx) ≡ raises raised
    → (any_error is_cti_error (flatten r) ≡ false) × (r ≡ raised)
unfolding run_with_outcome
raised_again started ended r ctx raised h = ground arith

-- What still leaves is what was raised, and holds no `CTIError`.
pub run_with_outcome-raises :
    (started ended : ℕ) (end : PipelineEnd) (raised : Raised)
    → run_with_outcome started ended end ≡ raises raised
    → NoCtiError (flatten raised)
run_with_outcome-raises started ended (finished result) raised h = unfold run_with_outcome in cc
run_with_outcome-raises started ended (broken r ctx) raised h =
    let (not_cti, same) = raised_again started ended r ctx raised h in
    rw (← same) (any_error-false is_cti_error (flatten r) not_cti)

-- An exception of such a class is among those raised, at any depth of the groups; or none is.
unfoldable mutual
  pub Includes : (ErrorClass → Bool) → Raised → Type 0
  Includes p (one e) = p e.cls ≡ true
  Includes p (group es) = AnyIncludes p es

  pub AnyIncludes : (ErrorClass → Bool) → RaisedList → Type 0
  AnyIncludes p nil = ⊥
  AnyIncludes p (cons r rs) = Includes p r ⊎ AnyIncludes p rs

unfoldable mutual
  pub Excludes : (ErrorClass → Bool) → Raised → Type 0
  Excludes p (one e) = p e.cls ≡ false
  Excludes p (group es) = AllExclude p es

  pub AllExclude : (ErrorClass → Bool) → RaisedList → Type 0
  AllExclude p nil = Unit
  AllExclude p (cons r rs) = Excludes p r × AllExclude p rs

any_error-append :
    (p : ErrorClass → Bool) (es es' : List Error)
    → any_error p (es ++ es') ≡ (any_error p es || any_error p es')
unfolding any_error
any_error-append p [] es' = refl
any_error-append p (e ∷ es) es' = ground (arith, any_error-append p es es')

mutual
  unfolding any_error flatten Includes

  any_error-Includes :
      (p : ErrorClass → Bool) (r : Raised) → any_error p (flatten r) ≡ true → Includes p r
  any_error-Includes p (one e) h = ground arith
  any_error-Includes p (group es) h = any_error-AnyIncludes p es h

  any_error-AnyIncludes :
      (p : ErrorClass → Bool) (es : RaisedList)
      → any_error p (flatten_all es) ≡ true
      → AnyIncludes p es
  any_error-AnyIncludes p nil h = ground arith
  any_error-AnyIncludes p (cons r rs) h = elim (Bool-cases (any_error p (flatten r))) [
    | inl first ↦ inl (any_error-Includes p r first)
    | inr later ↦ inr (
        any_error-AnyIncludes p rs
          (ground (arith, any_error-append p (flatten r) (flatten_all rs), later, h)))
  ]

mutual
  unfolding any_error flatten Excludes

  any_error-Excludes :
      (p : ErrorClass → Bool) (r : Raised) → any_error p (flatten r) ≡ false → Excludes p r
  any_error-Excludes p (one e) h = ground arith
  any_error-Excludes p (group es) h = any_error-AllExclude p es h

  any_error-AllExclude :
      (p : ErrorClass → Bool) (es : RaisedList)
      → any_error p (flatten_all es) ≡ false
      → AllExclude p es
  any_error-AllExclude p nil h = tt
  any_error-AllExclude p (cons r rs) h =
      let split = any_error-append p (flatten r) (flatten_all rs) in
      (
        any_error-Excludes p r (ground (arith, split, h)),
        any_error-AllExclude p rs (ground (arith, split, h)),
      )

-- The state of a run whose pipeline broke: FAILED if a `PermanentError` is among the exceptions, at
-- any depth of the groups; otherwise PARTIAL if a `CTIError` is; otherwise they are raised again.
-- The watermark of the result is the one that the stages left, also when the run failed.
pub run_with_outcome-broken :
    (started ended : ℕ) (raised : Raised) (ctx : RunContext)
    → let outcome = run_with_outcome started ended (broken raised ctx) in
      (Includes is_permanent raised
        × ((r : RunResult) × (outcome ≡ returns r)
            × (r.state ≡ failed)
            × (r.watermark ≡ ctx.watermark)))
      ⊎ (Excludes is_permanent raised
          × Includes is_cti_error raised
          × ((r : RunResult) × (outcome ≡ returns r)
              × (r.state ≡ partial)
              × (r.watermark ≡ ctx.watermark)))
      ⊎ (Excludes is_cti_error raised × (outcome ≡ raises raised))
unfolding run_with_outcome
run_with_outcome-broken started ended raised ctx =
    elim (Bool-cases (any_error is_permanent (flatten raised))) [
      | inl permanent ↦ inl (
        any_error-Includes is_permanent raised permanent,
        (outcome_result ctx failed started ended (flatten raised), rw permanent, refl, refl),
      )
      | inr not_permanent ↦ elim (Bool-cases (any_error is_cti_error (flatten raised))) [
        | inl cti ↦ inr (
            inl (
              any_error-Excludes is_permanent raised not_permanent,
              any_error-Includes is_cti_error raised cti,
              (
                outcome_result ctx partial started ended (flatten raised),
                rw (not_permanent, cti),
                refl,
                refl,
              ),
            ))
        | inr not_cti ↦
            inr (inr (any_error-Excludes is_cti_error raised not_cti, rw (not_permanent, not_cti)))
      ]
    ]

pub Outcome-cases {ℓ} :
    {A : Type ℓ} (o : Outcome A) → ((a : A) × (o ≡ returns a)) ⊎ ((r : Raised) × (o ≡ raises r))
Outcome-cases (returns a) = inl (a, refl)
Outcome-cases (raises r) = inr (r, refl)
