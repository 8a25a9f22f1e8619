-- ===== src/Queue/Tests.antt =====
-- The theorems on two stages and their queue, at a run of two items through a queue of one slot.
use null.Prelude.{◌≡◌, ◌<◌, refl, ℕ, true, false, [], ◌∷◌, some}
use null.Queue.{item, put, begin_close, get, put_slot}
use null.Queue.Channel.System.{
  Channel, finished, sending, start, Step, Reach, at_start, then_step, by_producer, by_consumer,
}
use null.Queue.Channel.Delivery.{delivery}
use null.Queue.Channel.Progress.{measure, progress, Step-measure}

abbrev done : Channel ℕ
done = record {
  producer = finished;
  queue = record { name = "parse"; maxsize = 1; slots = []; closed = true; depth = some 0 };
  received = 7 ∷ 8 ∷ [];
  ended = true;
}

run : Reach (start "parse" 1 (7 ∷ 8 ∷ [])) done
unfolding put begin_close get put_slot
run =
    then_step
      (then_step
        (then_step
          (then_step
            (then_step (then_step (then_step at_start (by_producer refl)) (by_consumer refl))
              (by_producer refl))
            (by_consumer refl))
          (by_producer refl))
        (by_producer refl))
      (by_consumer refl)

delivery_example :
    (done.received ≡ 7 ∷ 8 ∷ []) × (done.queue.slots ≡ []) × (done.producer ≡ finished)
delivery_example = delivery 1 (7 ∷ 8 ∷ []) "parse" run refl

abbrev begun : Channel ℕ
begun = record {
  producer = sending (8 ∷ []);
  queue = record {
    name = "parse";
    maxsize = 1;
    slots = item 7 ∷ [];
    closed = false;
    depth = some 1;
  };
  received = [];
  ended = false;
}

one_put : Step (start "parse" 1 (7 ∷ 8 ∷ [])) begun
unfolding put put_slot
one_put = by_producer refl

-- The queue is full, so it is the consumer's turn.
progress_example : (c' : Channel ℕ) × Step begun c'
progress_example = progress 1 (7 ∷ 8 ∷ []) "parse" (then_step at_start one_put) refl

Step-measure_example : measure {A = ℕ} begun < measure {A = ℕ} (start "parse" 1 (7 ∷ 8 ∷ []))
Step-measure_example = Step-measure one_put
