-- ===== src/Queue/Channel/Delivery.antt =====
-- What the consumer receives, whatever the interleaving.
use null.Prelude.{
  ℕ, ◌≤◌, String, ◌≡◌, ◌⊎◌, refl, ap, Bool, true, false, some, List, [], ◌∷◌, ◌++◌, length,
  length-append, append-nil, append_assoc, arith,
}
use null.Queue.{Slot, item, sentinel, StageQueue, put_slot, put, begin_close, get}
use null.Queue.Channel.System.{
  Producer, sending, closing, finished, Channel, start, producer_step, consumer_step, Step,
  by_producer, by_consumer, Reach, at_start, then_step,
}

module _ {ℓ} {A : Type ℓ} where
  -- The items that the producer has still to put, and those in the queue.
  abbrev pub pending : Producer A → List A
  pending (sending xs) = xs
  pending closing = []
  pending finished = []

  abbrev pub queued : List (Slot A) → List A
  queued [] = []
  queued (item a ∷ slots) = a ∷ queued slots
  queued (sentinel ∷ slots) = queued slots

  -- No sentinel; or one, and last.
  abbrev pub Unclosed : List (Slot A) → Type 0
  Unclosed [] = Unit
  Unclosed (item a ∷ slots) = Unclosed slots
  Unclosed (sentinel ∷ slots) = ⊥

  abbrev pub Closed : List (Slot A) → Type 0
  Closed [] = ⊥
  Closed (item a ∷ slots) = Closed slots
  Closed (sentinel ∷ []) = Unit
  Closed (sentinel ∷ s ∷ slots) = ⊥

  abbrev pub IsEmpty : List (Slot A) → Type 0
  IsEmpty [] = Unit
  IsEmpty (s ∷ slots) = ⊥

  -- How far the producer is, against the flag, the queue and the end of the iteration.
  abbrev pub Phase : Producer A → Bool → Bool → List (Slot A) → Type 0
  Phase (sending xs) closed ended slots = (closed ≡ false) × (ended ≡ false) × Unclosed slots
  Phase closing closed ended slots = (closed ≡ true) × (ended ≡ false) × Unclosed slots
  Phase finished closed true slots = (closed ≡ true) × IsEmpty slots
  Phase finished closed false slots = (closed ≡ true) × Closed slots

  pub record IsConsistent (maxsize : ℕ) (items : List A) (c : Channel A) : Type ℓ where
    pub same_maxsize : c.queue.maxsize ≡ maxsize
    pub bounded : (maxsize ≡ 0) ⊎ (length c.queue.slots ≤ maxsize)
    pub in_order : c.received ++ (queued c.queue.slots ++ pending c.producer) ≡ items
    pub phase : Phase c.producer c.queue.closed c.ended c.queue.slots

  queued-append :
      (slots : List (Slot A)) (x : A) → queued (slots ++ item x ∷ []) ≡ queued slots ++ x ∷ []
  queued-append [] x = refl
  queued-append (item a ∷ slots) x = ap (λ l. a ∷ l) (queued-append slots x)
  queued-append (sentinel ∷ slots) x = queued-append slots x

  queued-append_sentinel : (slots : List (Slot A)) → queued (slots ++ sentinel ∷ []) ≡ queued slots
  queued-append_sentinel [] = refl
  queued-append_sentinel (item a ∷ slots) = ap (λ l. a ∷ l) (queued-append_sentinel slots)
  queued-append_sentinel (sentinel ∷ slots) = queued-append_sentinel slots

  Unclosed-append :
      (slots : List (Slot A)) (x : A) → Unclosed slots → Unclosed (slots ++ item x ∷ [])
  Unclosed-append [] x h = tt
  Unclosed-append (item a ∷ slots) x h = Unclosed-append slots x h
  Unclosed-append (sentinel ∷ slots) x h = absurd h

  Closed-append : (slots : List (Slot A)) → Unclosed slots → Closed (slots ++ sentinel ∷ [])
  Closed-append [] h = tt
  Closed-append (item a ∷ slots) h = Closed-append slots h
  Closed-append (sentinel ∷ slots) h = absurd h

  put_slot_bounded :
      (s : Slot A) (q q' : StageQueue A)
      → put_slot s q ≡ some q'
      → (q' ≡ record q { slots = q.slots ++ s ∷ [] })
        × ((q.maxsize ≡ 0) ⊎ (length (q.slots ++ s ∷ []) ≤ q.maxsize))
  unfolding put_slot
  put_slot_bounded s q q' e = ground (arith, length-append q.slots (s ∷ []))

  at_end :
      (p : Producer A) (closed : Bool) (slots : List (Slot A))
      → Phase p closed true slots
      → (p ≡ finished) × (slots ≡ [])
  at_end (sending xs) closed slots h = cc (h.1)
  at_end closing closed slots h = cc (h.1)
  at_end finished closed [] h = (refl, refl)
  at_end finished closed (s ∷ slots) h = absurd h.1

module _ {ℓ} {A : Type ℓ} (maxsize : ℕ) (items : List A) where
  producer_step-IsConsistent :
      (p : Producer A) (c c' : Channel A)
      → c.producer ≡ p
      → IsConsistent maxsize items c
      → producer_step p c ≡ some c'
      → IsConsistent maxsize items c'
  unfolding put begin_close
  producer_step-IsConsistent (sending (x ∷ xs)) c c' e h step = ground (
    arith,
    length-append c.queue.slots (item x ∷ []),
    queued-append c.queue.slots x,
    Unclosed-append c.queue.slots x,
    append_assoc (queued c.queue.slots) (x ∷ []) xs,
  )
  producer_step-IsConsistent (sending []) c c' e h step = ground arith
  producer_step-IsConsistent closing c c' e h step = ground (
    arith,
    length-append {ℓ} c.queue.slots (sentinel ∷ []),
    queued-append_sentinel c.queue.slots,
    Closed-append c.queue.slots,
  )
  producer_step-IsConsistent finished c c' e h step = cc

  consumer_step-IsConsistent :
      (slots : List (Slot A)) (ended : Bool) (c c' : Channel A)
      → c.queue.slots ≡ slots
      → c.ended ≡ ended
      → IsConsistent maxsize items c
      → consumer_step ended c ≡ some c'
      → IsConsistent maxsize items c'
  unfolding get
  consumer_step-IsConsistent slots true c c' e over h step = cc
  consumer_step-IsConsistent [] false c c' e live h step = ground arith
  consumer_step-IsConsistent (item a ∷ slots) false c c' e live h step =
      ground (arith, append_assoc c.received (a ∷ []) (queued slots ++ pending c.producer))
  consumer_step-IsConsistent (sentinel ∷ slots) false c c' e live h step = ground arith

  Step-IsConsistent :
      {c c' : Channel A} → Step c c' → IsConsistent maxsize items c → IsConsistent maxsize items c'
  Step-IsConsistent {c} {c'} (by_producer step) h =
      producer_step-IsConsistent c.producer c c' refl h step
  Step-IsConsistent {c} {c'} (by_consumer step) h =
      consumer_step-IsConsistent c.queue.slots c.ended c c' refl refl h step

  -- Whatever the order in which the two tasks run: what was received, then what is queued, then
  -- what is still to be put is the producer's list, in its order; the queue holds no more than
  -- `maxsize` slots, if that is not 0; the sentinel is put once, after the last item.
  pub Reach-IsConsistent :
      (name : String) {c : Channel A}
      → Reach (start name maxsize items) c
      → IsConsistent maxsize items c
  Reach-IsConsistent name at_start = ground arith
  Reach-IsConsistent name (then_step r s) = Step-IsConsistent s (Reach-IsConsistent name r)

  -- When the consumer's iteration has ended it has received every item that the producer put, in
  -- the order in which they were put, and nothing is left in the queue.
  pub delivery :
      (name : String) {c : Channel A}
      → Reach (start name maxsize items) c
      → c.ended ≡ true
      → (c.received ≡ items) × (c.queue.slots ≡ []) × (c.producer ≡ finished)
  delivery name {c} r over =
      let h = Reach-IsConsistent name r in
      let (last, empty) = at_end c.producer c.queue.closed c.queue.slots (rw over at h.phase) in
      ground (arith, h.in_order, append-nil c.received)
