-- ===== src/Queue.antt =====
-- core/queue.py: the bounded queue between two stages, with a sentinel for the end of the stream.
pub mod Channel
mod Tests
use null.Prelude.{
  ℕ, String, Bool, true, false, Option, none, some, List, [], ◌∷◌, ◌++◌, length, leb, ◌==◌,
  if◌then◌else◌,
}

-- What stands in the `asyncio.Queue`: an item, or `SENTINEL`.
pub data Slot {ℓ} (A : Type ℓ) : Type ℓ where
  item : A → Slot A
  sentinel : Slot A

pub record StageQueue {ℓ} (A : Type ℓ) : Type ℓ where
  pub name : String
  pub maxsize : ℕ
  pub slots : List (Slot A)
  pub closed : Bool
  -- the gauge that `_record_depth` sets
  pub depth : Option ℕ

-- `DEFAULT_MAXSIZE`
abbrev pub default_maxsize : ℕ
default_maxsize = 1000

module _ {ℓ} {A : Type ℓ} where
  -- `StageQueue.__init__`
  abbrev pub new_queue : String → ℕ → StageQueue A
  new_queue name maxsize = record {
    name = name;
    maxsize = maxsize;
    slots = [];
    closed = false;
    depth = none;
  }

  -- `asyncio.Queue.full`: a `maxsize` of 0 means that there is no bound.
  unfoldable pub full : StageQueue A → Bool
  full q = if q.maxsize == 0 then false else leb q.maxsize (length q.slots)

  -- `asyncio.Queue.put`: `none` where the caller has to wait.
  unfoldable pub put_slot : Slot A → StageQueue A → Option (StageQueue A)
  unfolding full
  put_slot s q = if full q then none else some (record q { slots = q.slots ++ s ∷ [] })

  unfoldable pub qsize : StageQueue A → ℕ
  qsize q = length q.slots

  -- `_record_depth`
  unfoldable pub record_depth : StageQueue A → StageQueue A
  unfolding qsize
  record_depth q = record q { depth = some (qsize q) }

  -- `put`
  unfoldable pub put : A → StageQueue A → Option (StageQueue A)
  unfolding put_slot record_depth
  put a q = elim (put_slot (item a) q) [ none ↦ none | some q' ↦ some (record_depth q') ]

  -- `close` up to its `await`: true if it goes on to put the sentinel.
  unfoldable pub begin_close : StageQueue A → Bool × StageQueue A
  begin_close q = if q.closed then (false, q) else (true, record q { closed = true })

  abbrev taken : Slot A → Option A
  taken (item a) = some a
  taken sentinel = none

  abbrev pop : List (Slot A) → StageQueue A → Option (Option A × StageQueue A)
  pop [] q = none
  pop (s ∷ rest) q = some (taken s, record_depth (record q { slots = rest }))

  -- `get`: `none` where the caller has to wait, `some none` at the sentinel.
  unfoldable pub get : StageQueue A → Option (Option A × StageQueue A)
  unfolding record_depth
  get q = pop q.slots q
