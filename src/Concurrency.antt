-- ===== src/Concurrency.antt =====
-- manager/concurrency.py: the semaphores that bound how many runs go on at a time. An
-- `asyncio.Semaphore` is given by its free places; a waiting `acquire` is one that does not happen.
pub mod Bounds
pub mod Workers
mod Tests
use null.Prelude.{
  ℕ, ℤ, pos, negsuc, ◌+◌, ◌-◌, ◌==◌, max, if◌then◌else◌, String, Option, none, some, List, [], ◌∷◌,
}
use null.Dict.{Dict, lookup, insert}

pub record Semaphore : Type 0 where
  pub places : ℕ
  pub held : ℕ

-- `Semaphore.acquire`, where it does not wait, and `release`.
unfoldable pub acquire : Semaphore → Option Semaphore
acquire s =
    if s.places == 0 then none else some (record { places = s.places - 1; held = s.held + 1 })

unfoldable pub release : Semaphore → Semaphore
release s = record { places = s.places + 1; held = s.held - 1 }

abbrev pub at_least_one : ℤ → ℕ
at_least_one (pos n) = max 1 n
at_least_one (negsuc n) = 1

-- `PerSourceConcurrency`
abbrev pub PerSourceConcurrency : Type 0
PerSourceConcurrency = Dict Semaphore

-- `PerSourceConcurrency.get`
unfoldable pub get_semaphore : String → ℤ → PerSourceConcurrency → Semaphore × PerSourceConcurrency
unfolding lookup insert
get_semaphore source_id max_parallelism sems = elim (lookup source_id sems) [
  | none ↦
      let sem : Semaphore = record { places = at_least_one max_parallelism; held = 0 } in
      (sem, insert source_id sem sems)
  | some sem ↦ (sem, sems)
]

-- `GlobalConcurrency.__init__`
abbrev pub global_concurrency : ℕ → Semaphore
global_concurrency max_concurrent = record { places = max_concurrent; held = 0 }

-- `GlobalConcurrency.__aenter__` and `__aexit__`
abbrev pub enter : Semaphore → Option Semaphore
enter = acquire

abbrev pub leave : Semaphore → Semaphore
leave = release

-- What the tasks of a worker do to one semaphore.
pub data Use : Type 0 where
  entering leaving : Use

abbrev pub or_same : Option Semaphore → Semaphore → Semaphore
or_same none s = s
or_same (some s') s = s'

-- The semaphore after these uses: an `acquire` without a free place waits, and changes nothing; a
-- task leaves only if one has entered.
unfoldable pub uses : List Use → Semaphore → Semaphore
unfolding acquire release
uses [] s = s
uses (entering ∷ us) s = uses us (or_same (acquire s) s)
uses (leaving ∷ us) s = uses us (if s.held == 0 then s else release s)
