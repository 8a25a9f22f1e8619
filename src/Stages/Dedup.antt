-- ===== src/Stages/Dedup.antt =====
-- core/stages/dedup.py: the Bloom filter is a hint that never drops an indicator.
use null.Prelude.{
  ℕ, ◌≡◌, refl, Bool, true, false, Option, none, some, List, [], ◌∷◌, inl, inr, arith,
  if◌then◌else◌,
}
use null.Errors.{Error, Result, ok, err, is_exception, Result-cases}
use null.Models.{Indicator}
use null.Json.{Fields}
use null.Stages.Run.{StageRun, emit, returned, raising}

-- The Redis client of a `BloomCache`, as its answers to the ids of one command: a truth value, or
-- an exception.
abbrev pub RedisBloom : Type 0
RedisBloom = ℕ → Result Bool

-- `except Exception`: what is not an `Exception`, a cancellation, goes on.
abbrev swallow {ℓ} : {A : Type ℓ} → A → Error → Result A
swallow a e = if is_exception e.cls then ok a else err e

-- `BloomCache.add`
unfoldable pub bloom_add : Option RedisBloom → ℕ → Result (Unit {0})
bloom_add none id = ok tt
bloom_add (some redis) id = elim (redis id) [ ok _ ↦ ok tt | err e ↦ swallow tt e ]

-- `BloomCache.exists`
unfoldable pub bloom_exists : Option RedisBloom → ℕ → Result Bool
bloom_exists none id = ok false
bloom_exists (some redis) id = elim (redis id) [ ok b ↦ ok b | err e ↦ swallow false e ]

-- `bloom.add` where a `BloomCache` is configured.
unfoldable pub hint : Option (Option RedisBloom) → ℕ → Result (Unit {0})
unfolding bloom_add
hint none id = ok tt
hint (some redis) id = bloom_add redis id

unfoldable pub run_dedup :
    Option (Option RedisBloom) → List (Indicator × Fields) → StageRun (Indicator × Fields)
unfolding hint
run_dedup bloom [] = returned
run_dedup bloom ((indicator, raw) ∷ inq) = elim (hint bloom indicator.id) [
  | ok _ ↦ emit (indicator, raw) (run_dedup bloom inq)
  | err e ↦ raising e
]

-- The client is not cancelled while it serves a command.
abbrev pub NotCancelled : Option (Option RedisBloom) → Type 0
NotCancelled none = Unit
NotCancelled (some none) = Unit
NotCancelled (some (some redis)) =
    (id : ℕ) (e : Error) → redis id ≡ err e → is_exception e.cls ≡ true

hint-eq-ok :
    (bloom : Option (Option RedisBloom)) (id : ℕ) → NotCancelled bloom → hint bloom id ≡ ok tt
unfolding hint
hint-eq-ok none id h = refl
hint-eq-ok (some none) id h = refl
hint-eq-ok (some (some redis)) id h = elim (Result-cases (redis id)) [
  | inl (b, answered) ↦ rw answered
  | inr (e, failed) ↦ rw (failed, h id e failed)
]

-- One more indicator, whose hint was stored or swallowed.
run_dedup-cons :
    (bloom : Option (Option RedisBloom)) (indicator : Indicator) (raw : Fields)
    (inq : List (Indicator × Fields))
    → hint bloom indicator.id ≡ ok tt
    → run_dedup bloom ((indicator, raw) ∷ inq) ≡ emit (indicator, raw) (run_dedup bloom inq)
unfolding run_dedup
run_dedup-cons bloom indicator raw inq e = ground arith

-- Whatever Redis answers, and whether it answers or fails, the stage forwards every indicator with
-- its record, in order, and ends normally: no false positive of the filter drops anything.
pub run_dedup-forwards :
    (bloom : Option (Option RedisBloom)) (inq : List (Indicator × Fields))
    → NotCancelled bloom
    → run_dedup bloom inq ≡ record { out = inq; closed = true; raised = none; metrics = [] }
run_dedup-forwards bloom [] h = unfold run_dedup in refl
run_dedup-forwards bloom ((indicator, raw) ∷ inq) h = rw (
  run_dedup-cons bloom indicator raw inq (hint-eq-ok bloom indicator.id h),
  run_dedup-forwards bloom inq h,
)
