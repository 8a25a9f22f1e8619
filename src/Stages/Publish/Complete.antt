-- ===== src/Stages/Publish/Complete.antt =====
-- A run of the publish stage that raises nothing offers every pair to every publisher.
use null.Prelude.{
  ℕ, ◌<◌, String, ◌≡◌, refl, ap, sym, ◌∙◌, none, List, [], ◌∷◌, ◌++◌, append_assoc, append-nil,
  arith, str_eq, if◌then◌else◌, replicate, repeated,
}
use null.Stages.Persist.{Pair}
use null.Stages.Publish.{
  Publisher, PublishState, batch_of, set_batch, flush, offer, offer_all, flush_all, publish_items,
  empty_batches, run_publish,
}
use null.Stages.Publish.Fanout.{
  offered, copies, assigned, assigned-flush, assigned-set_batch, batch_of-flush, assigned_start,
  offered-eq-assigned,
}

module _ (name : String) (batch_size : ℕ) where
  assigned-offer :
      (x : Pair) (p : Publisher) (st : PublishState)
      → (offer batch_size x p st).0 ≡ none
      → assigned name (offer batch_size x p st).1
        ≡ assigned name st ++ (if str_eq p.name name then x ∷ [] else [])
  unfolding offer
  assigned-offer x p st h =
      let st' = set_batch p.name (batch_of p.name st ++ x ∷ []) st in
      ground (arith, assigned-flush name p st', assigned-set_batch name p.name x st)

  assigned-offer_all :
      (x : Pair) (ps : List Publisher) (st : PublishState)
      → (offer_all batch_size x ps st).0 ≡ none
      → assigned name (offer_all batch_size x ps st).1
        ≡ assigned name st ++ replicate (copies name ps) x
  unfolding offer_all copies
  assigned-offer_all x [] st h = sym (append-nil (assigned name st))
  assigned-offer_all x (p ∷ ps) st h =
      let (raised, st') = offer batch_size x p st in
      ground (
        arith,
        assigned-offer x p st,
        assigned-offer_all x ps st',
        append-nil (assigned name st),
        append_assoc (assigned name st) (x ∷ []) (replicate (copies name ps) x),
      )

  assigned-flush_all :
      (ps : List Publisher) (st : PublishState)
      → (flush_all ps st).0 ≡ none
      → assigned name (flush_all ps st).1 ≡ assigned name st
  unfolding flush_all
  assigned-flush_all [] st h = refl
  assigned-flush_all (p ∷ ps) st h =
      let (raised, st') = flush p st in
      ground (arith, assigned-flush name p st, assigned-flush_all ps st')

  -- Once empty, a batch stays empty while the others are flushed.
  empty-flush_all :
      (ps : List Publisher) (st : PublishState)
      → (flush_all ps st).0 ≡ none
      → batch_of name st ≡ []
      → batch_of name (flush_all ps st).1 ≡ []
  unfolding flush_all
  empty-flush_all [] st h e = e
  empty-flush_all (p ∷ ps) st h e =
      let (raised, st') = flush p st in
      ground (arith, batch_of-flush name p st, empty-flush_all ps st')

  flushed-flush_all :
      (ps : List Publisher) (st : PublishState)
      → (flush_all ps st).0 ≡ none
      → 0 < copies name ps
      → batch_of name (flush_all ps st).1 ≡ []
  unfolding flush_all copies
  flushed-flush_all [] st h e = absurd (omega arith)
  flushed-flush_all (p ∷ ps) st h e =
      let (raised, st') = flush p st in
      ground (arith, batch_of-flush name p st, empty-flush_all ps st', flushed-flush_all ps st')

  assigned-publish_items :
      (ps : List Publisher) (inq : List Pair) (st : PublishState)
      → (publish_items ps batch_size inq st).0 ≡ none
      → 0 < copies name ps
      → (assigned name (publish_items ps batch_size inq st).1
          ≡ assigned name st ++ repeated (copies name ps) inq)
        × (batch_of name (publish_items ps batch_size inq st).1 ≡ [])
  unfolding publish_items
  assigned-publish_items ps [] st h e = (
    assigned-flush_all ps st h ∙ sym (append-nil (assigned name st)),
    flushed-flush_all ps st h e,
  )
  assigned-publish_items ps (x ∷ inq) st h e =
      let (raised, st') = offer_all batch_size x ps st in
      ground (
        arith,
        assigned-offer_all x ps st,
        assigned-publish_items ps inq st',
        append_assoc (assigned name st) (replicate (copies name ps) x)
            (repeated (copies name ps) inq),
      )

  -- If the stage raises nothing, the publishers of a name have been called, over all their batches,
  -- with every pair in input order, each pair as often as there are publishers of that name: once
  -- if the names differ.
  pub run_publish_complete :
      (ps : List Publisher) (inq : List Pair)
      → (run_publish ps batch_size inq).0 ≡ none
      → 0 < copies name ps
      → offered name (run_publish ps batch_size inq).1.calls ≡ repeated (copies name ps) inq
  unfolding run_publish copies
  run_publish_complete [] inq h e = absurd (omega arith)
  run_publish_complete (p ∷ ps) inq h e =
      let start : PublishState = record {
        batches = empty_batches (p ∷ ps) [];
        calls = [];
        metrics = [];
      } in
      let (all, flushed) = assigned-publish_items (p ∷ ps) inq start h e in
      offered-eq-assigned name (publish_items (p ∷ ps) batch_size inq start).1 flushed
      ∙ all
      ∙ ap (λ l. l ++ repeated (copies name (p ∷ ps)) inq) (assigned_start name (p ∷ ps))
