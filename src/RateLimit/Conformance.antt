-- ===== src/RateLimit/Conformance.antt =====
-- No schedule of callers gets more tokens from a bucket than its burst and its rate allow.
use null.Prelude.{
  ℕ, ◌+◌, ◌-◌, ◌*◌, ◌≤◌, String, ◌≡◌, List, [], ◌∷◌, arith, ◌==◌, str_eq, eq_iff, eq_refl, sym, ap,
  Bool-cases, inl, inr, if◌then◌else◌,
}
use native.Mathlib.Nat.{add-mul}
use null.RateLimit.Try.{TokenBucket, try_local}
use null.RateLimit.Level.{level, level-le-burst, try_local_self, try_local_ne, level_rises}

-- One attempt of some task: the clock reading, the key and the cost.
pub record Attempt : Type 0 where
  pub now : ℕ
  pub key : String
  pub cost : ℕ

abbrev after : Attempt → TokenBucket → TokenBucket
after a tb = (try_local a.now a.key a.cost tb).1

-- What an attempt takes from the bucket of `key`.
abbrev taken : String → Attempt → TokenBucket → ℕ
taken key a tb =
    if str_eq key a.key then (if (try_local a.now a.key a.cost tb).0 == 0 then a.cost else 0) else 0

pub granted : String → List Attempt → TokenBucket → ℕ
granted key [] tb = 0
granted key (a ∷ as_) tb = taken key a tb + granted key as_ (after a tb)

-- The clock never goes back: the readings rise from `start` to `end`.
abbrev pub Rising : ℕ → List Attempt → ℕ → Type 0
Rising start [] end = start ≤ end
Rising start (a ∷ as_) end = (start ≤ a.now) × Rising a.now as_ end

-- The levels before and after an attempt on any key account for what it takes.
taken-level :
    (key : String) (a : Attempt) (tb : TokenBucket)
    → taken key a tb + level a.now key (after a tb) ≤ level a.now key tb
taken-level key a tb = elim (Bool-cases (str_eq key a.key)) [
  | inl same ↦
      let attempt = try_local_self a.now a.key a.cost tb in
      rw ((eq_iff key a.key).0 same) (ground (arith, eq_refl a.key, attempt.0, attempt.1))
  | inr differs ↦ rw differs (
      omega (
        arith,
        try_local_ne a.now a.key a.cost tb a.now key
            (λ e. cc (differs, (eq_iff key a.key).1 (sym e))),
      ))
]

same_limits :
    (a : Attempt) (tb : TokenBucket)
    → ((after a tb).rate ≡ tb.rate) × ((after a tb).burst ≡ tb.burst)
unfolding try_local
same_limits a tb = ground arith

Rising-le : (start : ℕ) (as_ : List Attempt) (end : ℕ) → Rising start as_ end → start ≤ end
Rising-le start [] end h = h
Rising-le start (a ∷ as_) end h = omega (arith, Rising-le a.now as_ end h.1)

split_elapsed : (a b c r : ℕ) → a ≤ b → b ≤ c → (b - a) * r + (c - b) * r ≡ (c - a) * r
split_elapsed a b c r h k = rw (← add-mul (b - a) (c - b) r) (ap (λ (t : ℕ). t * r) (omega arith))

granted-le-level :
    (key : String) (start : ℕ) (as_ : List Attempt) (end : ℕ) (tb : TokenBucket)
    → Rising start as_ end
    → granted key as_ tb ≤ level start key tb + (end - start) * tb.rate
unfolding granted
granted-le-level key start [] end tb h = omega arith
granted-le-level key start (a ∷ as_) end tb h =
    let rest = granted-le-level key a.now as_ end (after a tb) h.1 in
    let rest' = rw (same_limits a tb).0 at rest in
    omega (
      arith,
      rest',
      taken-level key a tb,
      level_rises start a.now key tb h.0,
      split_elapsed start a.now end tb.rate h.0 (Rising-le a.now as_ end h.1),
    )

-- Whatever the tasks, keys and costs, as long as the clock does not go back: what one key is
-- granted between two times is at most the burst and the rate times the time between them.
pub granted_bound :
    (key : String) (start : ℕ) (attempts : List Attempt) (end : ℕ) (tb : TokenBucket)
    → Rising start attempts end
    → granted key attempts tb ≤ tb.burst + (end - start) * tb.rate
granted_bound key start attempts end tb h =
    omega (arith, granted-le-level key start attempts end tb h, level-le-burst start key tb)
