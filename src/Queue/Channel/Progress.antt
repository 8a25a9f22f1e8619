-- ===== src/Queue/Channel/Progress.antt =====
-- The two tasks cannot block one another, and the iteration ends.
use null.Prelude.{
  ℕ, ◌+◌, ◌*◌, ◌<◌, String, ◌≡◌, refl, sym, Bool, true, false, some, List, [], ◌∷◌, ◌++◌, length,
  length-append, arith,
}
use mathlib.Core.Path.{subst}
use null.Queue.{Slot, item, sentinel, put, record_depth, begin_close, get}
use null.Queue.Channel.System.{
  Producer, sending, closing, finished, Channel, start, Step, by_producer, by_consumer, Reach,
  producer_step, consumer_step,
}
use null.Queue.Channel.Delivery.{Phase, Reach-IsConsistent}

module _ {ℓ} {A : Type ℓ} where
  -- What is left to do: two steps for each item to put, one for each slot to take.
  abbrev pub work_left : Producer A → ℕ
  work_left (sending xs) = 2 * length xs + 3
  work_left closing = 2
  work_left finished = 0

  abbrev pub measure : Channel A → ℕ
  measure c = work_left c.producer + length c.queue.slots

  producer_step-measure :
      (p : Producer A) (c c' : Channel A)
      → c.producer ≡ p
      → producer_step p c ≡ some c'
      → measure c' < measure c
  unfolding put begin_close
  producer_step-measure (sending (x ∷ xs)) c c' e step =
      ground (arith, length-append c.queue.slots (item x ∷ []))
  producer_step-measure (sending []) c c' e step = ground arith
  producer_step-measure closing c c' e step =
      ground (arith, length-append {ℓ} c.queue.slots (sentinel ∷ []))
  producer_step-measure finished c c' e step = cc

  consumer_step-measure :
      (slots : List (Slot A)) (ended : Bool) (c c' : Channel A)
      → c.queue.slots ≡ slots
      → consumer_step ended c ≡ some c'
      → measure c' < measure c
  unfolding get
  consumer_step-measure slots true c c' e step = cc
  consumer_step-measure [] false c c' e step = ground arith
  consumer_step-measure (item a ∷ slots) false c c' e step = ground arith
  consumer_step-measure (sentinel ∷ slots) false c c' e step = ground arith

  -- Every step of either task leaves less to do, so the two run for finitely many steps.
  pub Step-measure : {c c' : Channel A} → Step c c' → measure c' < measure c
  Step-measure {c} {c'} (by_producer step) = producer_step-measure c.producer c c' refl step
  Step-measure {c} {c'} (by_consumer step) =
      consumer_step-measure c.queue.slots c.ended c c' refl step

  consumer_ready :
      (s : Slot A) (slots : List (Slot A)) (c : Channel A)
      → c.queue.slots ≡ s ∷ slots
      → (c' : Channel A) × (consumer_step false c ≡ some c')
  unfolding get
  consumer_ready (item a) slots c e = rw e (_, refl)
  consumer_ready sentinel slots c e = rw e (_, refl)

  -- With an empty queue the producer can go on, unless it has finished.
  producer_ready :
      (p : Producer A) (c : Channel A)
      → c.queue.slots ≡ []
      → Phase p c.queue.closed false []
      → (c' : Channel A) × (producer_step p c ≡ some c')
  unfolding put begin_close
  producer_ready (sending (x ∷ xs)) c e h = (
    record c {
      producer = sending xs;
      queue = record_depth (record c.queue { slots = c.queue.slots ++ item x ∷ [] });
    },
    ground arith,
  )
  producer_ready (sending []) c e h = (_, refl)
  producer_ready closing c e h = (
    record c {
      producer = finished;
      queue = record c.queue { slots = c.queue.slots ++ sentinel ∷ [] };
    },
    ground arith,
  )
  producer_ready finished c e h = absurd h.1

module _ {ℓ} {A : Type ℓ} (maxsize : ℕ) (items : List A) where
  -- No deadlock: until the consumer has ended one of the two can take a step.
  pub progress :
      (name : String) {c : Channel A}
      → Reach (start name maxsize items) c
      → c.ended ≡ false
      → (c' : Channel A) × Step c c'
  progress name {c} r live =
      let h = Reach-IsConsistent maxsize items name r in
      ready c.queue.slots refl (rw live at h.phase)
    where
      ready :
          (slots : List (Slot A))
          → c.queue.slots ≡ slots
          → Phase c.producer c.queue.closed false slots
          → (c' : Channel A) × Step c c'
      ready [] e h = let (c', step) = producer_ready c.producer c e h in (c', by_producer step)
      ready (s ∷ slots) e h =
          let (c', step) = consumer_ready s slots c e in
          (c', by_consumer (subst (λ b. consumer_step b c ≡ some c') (sym live) step))
