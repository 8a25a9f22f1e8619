-- ===== src/Concurrency/Bounds.antt =====
-- How many tasks hold a semaphore at a time.
use null.Prelude.{
  ℕ, ℤ, pos, ◌+◌, ◌≤◌, ◌<◌, String, ◌≡◌, ◌≢◌, refl, ◌∙◌, ◌==◌, if◌then◌else◌, none, List, [], ◌∷◌,
  arith,
}
use null.Dict.{lookup, lookup-insert_self, lookup-insert_ne}
use null.Concurrency.{
  Semaphore, or_same, at_least_one, acquire, release, get_semaphore, PerSourceConcurrency, Use,
  entering, leaving, uses,
}

entered :
    (s : Semaphore)
    → (or_same (acquire s) s).places + (or_same (acquire s) s).held ≡ s.places + s.held
unfolding acquire
entered s = ground arith

left :
    (s : Semaphore)
    → let s' = if s.held == 0 then s else release s in s'.places + s'.held ≡ s.places + s.held
unfolding release
left s = ground arith

uses_total :
    (us : List Use) (s : Semaphore) → (uses us s).places + (uses us s).held ≡ s.places + s.held
unfolding uses
uses_total [] s = refl
uses_total (entering ∷ us) s = uses_total us (or_same (acquire s) s) ∙ entered s
uses_total (leaving ∷ us) s = uses_total us (if s.held == 0 then s else release s) ∙ left s

-- The semaphore that a source is given first has at least one place, also where the configuration
-- asks for none or for fewer, and as many as it asks for otherwise; whatever the tasks do with it,
-- no more than that many hold it at a time; a later `get` returns the same semaphore, whatever
-- limit it names; and other sources keep theirs.
pub get_semaphore_lem :
    (id : String) (limit later : ℤ) (us : List Use) (sems : PerSourceConcurrency)
    → lookup id sems ≡ none
    → let (sem, sems') = get_semaphore id limit sems in
      (0 < sem.places)
      × ((n : ℕ) → limit ≡ pos (n + 1) → sem.places ≡ n + 1)
      × ((uses us sem).held ≤ sem.places)
      × (get_semaphore id later sems' ≡ (sem, sems'))
      × ((other : String) → id ≢ other → lookup other sems' ≡ lookup other sems)
unfolding get_semaphore
get_semaphore_lem id limit later us sems new = ground (
  arith,
  uses_total us (record { places = at_least_one limit; held = 0 }),
  lookup-insert_self id (record { places = at_least_one limit; held = 0 }) sems,
  (λ (other : String).
      lookup-insert_ne id other (record { places = at_least_one limit; held = 0 }) sems),
)
