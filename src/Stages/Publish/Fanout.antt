-- ===== src/Stages/Publish/Fanout.antt =====
-- What each publisher is offered.
use null.Prelude.{
  ℕ, suc, String, ◌≡◌, refl, sym, Option, none, some, List, [], ◌∷◌, ◌++◌, append_assoc, append-nil,
  length, arith, str_eq, eq_iff, inl, inr, Option-cases, if◌then◌else◌,
}
use null.Dict.{Dict, lookup, insert, lookup-insert}
use null.Errors.{Error}
use null.Stages.Persist.{Pair}
use null.Stages.Publish.{
  Publisher, Call, PublishState, batch_of, or_empty, set_batch, flush_batch, flush, empty_batches,
}

-- A flush that raises nothing leaves an empty batch alone, and otherwise calls the publisher with the
-- batch and clears it.
Flushed : Publisher → List Pair → PublishState → PublishState → Type 0
Flushed p [] st st' = st' ≡ st
Flushed p (x ∷ xs) st st' =
    (o : Option Error) × (st'.calls
      ≡ st.calls ++ record { publisher = p.name; batch = x ∷ xs; outcome = o } ∷ [])
    × (st'.batches ≡ insert p.name [] st.batches)

flush_batch-Flushed :
    (p : Publisher) (batch : List Pair) (st : PublishState)
    → (flush_batch p batch st).0 ≡ none
    → Flushed p batch st (flush_batch p batch st).1
unfolding Flushed set_batch
flush_batch-Flushed p [] st h = refl
flush_batch-Flushed p (x ∷ xs) st h = elim (Option-cases (p.publish (length st.calls) (x ∷ xs))) [
  | inl stored ↦ (none, ground arith, ground arith)
  | inr (e, failed) ↦ (some e, ground arith, ground arith)
]

flush-Flushed :
    (p : Publisher) (st : PublishState)
    → (flush p st).0 ≡ none
    → Flushed p (batch_of p.name st) st (flush p st).1
unfolding flush
flush-Flushed p st h = flush_batch-Flushed p (batch_of p.name st) st h

module _ (name : String) where
  -- The batches that a publisher of this name was called with, joined.
  pub offered : List Call → List Pair
  offered [] = []
  offered (c ∷ cs) = if str_eq c.publisher name then c.batch ++ offered cs else offered cs

  -- How many of the publishers have this name.
  unfoldable pub copies : List Publisher → ℕ
  copies [] = 0
  copies (p ∷ ps) = if str_eq p.name name then suc (copies ps) else copies ps

  offered-append : (cs ds : List Call) → offered (cs ++ ds) ≡ offered cs ++ offered ds
  unfolding offered
  offered-append [] ds = refl
  offered-append (c ∷ cs) ds =
      ground (arith, offered-append cs ds, append_assoc c.batch (offered cs) (offered ds))

  -- What was offered, then what waits in the batch.
  pub assigned : PublishState → List Pair
  assigned st = offered st.calls ++ batch_of name st

  batch_of-set_batch :
      (other : String) (batch : List Pair) (st : PublishState)
      → batch_of name (set_batch other batch st)
        ≡ (if str_eq other name then batch else batch_of name st)
  unfolding batch_of set_batch
  batch_of-set_batch other batch st = ground (arith, lookup-insert other name batch st.batches)

  Flushed-assigned :
      (p : Publisher) (batch : List Pair) (st st' : PublishState)
      → batch_of p.name st ≡ batch
      → Flushed p batch st st'
      → assigned st' ≡ assigned st
  unfolding Flushed assigned offered batch_of
  Flushed-assigned p [] st st' e h = rw h
  Flushed-assigned p (x ∷ xs) st st' e (o, calls, batches) = ground (
    arith,
    eq_iff p.name name,
    lookup-insert p.name name [] st.batches,
    offered-append st.calls (record { publisher = p.name; batch = x ∷ xs; outcome = o } ∷ []),
    append-nil (offered st.calls),
    append-nil (x ∷ xs),
    append-nil (offered st.calls ++ x ∷ xs),
  )

  pub assigned-flush :
      (p : Publisher) (st : PublishState)
      → (flush p st).0 ≡ none
      → assigned (flush p st).1 ≡ assigned st
  assigned-flush p st h =
      Flushed-assigned p (batch_of p.name st) st (flush p st).1 refl (flush-Flushed p st h)

  -- A pair that is appended to a batch is assigned to the publishers of that name.
  pub assigned-set_batch :
      (other : String) (x : Pair) (st : PublishState)
      → assigned (set_batch other (batch_of other st ++ x ∷ []) st)
        ≡ assigned st ++ (if str_eq other name then x ∷ [] else [])
  unfolding assigned batch_of set_batch
  assigned-set_batch other x st = ground (
    arith,
    eq_iff other name,
    lookup-insert other name (batch_of other st ++ x ∷ []) st.batches,
    append_assoc (offered st.calls) (batch_of name st) (x ∷ []),
    append-nil (offered st.calls ++ batch_of name st),
  )

  Flushed-batch_of :
      (p : Publisher) (batch : List Pair) (st st' : PublishState)
      → batch_of p.name st ≡ batch
      → Flushed p batch st st'
      → batch_of name st' ≡ (if str_eq p.name name then [] else batch_of name st)
  unfolding Flushed batch_of
  Flushed-batch_of p [] st st' e h = ground (arith, eq_iff p.name name)
  Flushed-batch_of p (x ∷ xs) st st' e (o, calls, batches) =
      ground (arith, lookup-insert p.name name [] st.batches)

  -- A flush empties the batch of the publisher's name and no other.
  pub batch_of-flush :
      (p : Publisher) (st : PublishState)
      → (flush p st).0 ≡ none
      → batch_of name (flush p st).1 ≡ (if str_eq p.name name then [] else batch_of name st)
  batch_of-flush p st h =
      Flushed-batch_of p (batch_of p.name st) st (flush p st).1 refl (flush-Flushed p st h)

  empty_batches-empty :
      (ps : List Publisher) (d : Dict (List Pair))
      → or_empty (lookup name d) ≡ []
      → or_empty (lookup name (empty_batches ps d)) ≡ []
  unfolding empty_batches
  empty_batches-empty [] d h = h
  empty_batches-empty (p ∷ ps) d h =
      empty_batches-empty ps (insert p.name [] d) (ground (arith, lookup-insert p.name name [] d))

  -- At the start nothing is assigned.
  pub assigned_start :
      (ps : List Publisher)
      → assigned (record { batches = empty_batches ps []; calls = []; metrics = [] }) ≡ []
  unfolding assigned offered batch_of lookup
  assigned_start ps = empty_batches-empty ps [] refl

  -- With an empty batch all that is assigned was offered.
  pub offered-eq-assigned :
      (st : PublishState) → batch_of name st ≡ [] → offered st.calls ≡ assigned st
  unfolding assigned
  offered-eq-assigned st h = rw h (sym (append-nil (offered st.calls)))
