-- ===== src/Queue/Channel/System.antt =====
-- The producer's and the consumer's steps.
use null.Prelude.{ℕ, String, ◌≡◌, Bool, true, false, Option, none, some, List, [], ◌∷◌, ◌++◌}
use null.Queue.{StageQueue, sentinel, new_queue, put_slot, put, begin_close, get}

-- `sending xs`: the items still to be put; `closing`: waiting to put the sentinel.
pub data Producer {ℓ} (A : Type ℓ) : Type ℓ where
  sending : List A → Producer A
  closing : Producer A
  finished : Producer A

pub record Channel {ℓ} (A : Type ℓ) : Type ℓ where
  pub producer : Producer A
  pub queue : StageQueue A
  pub received : List A
  -- the consumer's iteration has ended
  pub ended : Bool

module _ {ℓ} {A : Type ℓ} where
  abbrev pub start : String → ℕ → List A → Channel A
  start name maxsize items = record {
    producer = sending items;
    queue = new_queue name maxsize;
    received = [];
    ended = false;
  }

  abbrev after_close : Bool → Producer A
  after_close true = closing
  after_close false = finished

  abbrev sent : Producer A → Option (StageQueue A) → Channel A → Option (Channel A)
  sent p none c = none
  sent p (some q) c = some (record c { producer = p; queue = q })

  -- One step of the producer: `none` if it waits or has finished.
  abbrev pub producer_step : Producer A → Channel A → Option (Channel A)
  producer_step (sending (x ∷ xs)) c = sent (sending xs) (put x c.queue) c
  producer_step (sending []) c =
      let (puts, q) = begin_close c.queue in
      some (record c { producer = after_close puts; queue = q })
  producer_step closing c = sent finished (put_slot sentinel c.queue) c
  producer_step finished c = none

  abbrev got : Option (Option A × StageQueue A) → Channel A → Option (Channel A)
  got none c = none
  got (some (none, q)) c = some (record c { queue = q; ended = true })
  got (some (some x, q)) c = some (record c { queue = q; received = c.received ++ x ∷ [] })

  -- One step of the consumer, `__anext__`: `none` if it waits or has ended.
  abbrev pub consumer_step : Bool → Channel A → Option (Channel A)
  consumer_step true c = none
  consumer_step false c = got (get c.queue) c

pub data Step {ℓ} {A : Type ℓ} (c : Channel A) (c' : Channel A) : Type ℓ where
  by_producer : producer_step c.producer c ≡ some c' → Step c c'
  by_consumer : consumer_step c.ended c ≡ some c' → Step c c'

pub data Reach {ℓ} {A : Type ℓ} (c : Channel A) : Channel A → Type ℓ where
  at_start : Reach c c
  then_step : {d e : Channel A} → Reach c d → Step d e → Reach c e
