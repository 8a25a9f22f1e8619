-- ===== src/Stages/Publish.antt =====
-- core/stages/publish.py
pub mod Fanout
pub mod Complete
use null.Prelude.{
  ℕ, String, str_append, Bool, true, false, Option, none, some, List, [], ◌∷◌, ◌++◌, length, leb,
  if◌then◌else◌,
}
use null.Dict.{Dict, lookup, insert}
use null.Errors.{ErrorClass, Error, tlp_violation}
use null.Stages.Run.{Metric, dropped, records_out}
use null.Stages.Persist.{Pair, Publishing}

pub record Publisher : Type 0 where
  pub name : String
  pub publish : Publishing

-- One call of `publish`: the publisher's name, the batch and the exception, if it raised one.
pub record Call : Type 0 where
  pub publisher : String
  pub batch : List Pair
  pub outcome : Option Error

pub record PublishState : Type 0 where
  pub batches : Dict (List Pair)
  pub calls : List Call
  pub metrics : List Metric

abbrev pub or_empty : Option (List Pair) → List Pair
or_empty none = []
or_empty (some batch) = batch

-- `batches[name]`: every publisher's name is a key from the start.
unfoldable pub batch_of : String → PublishState → List Pair
batch_of name st = or_empty (lookup name st.batches)

unfoldable pub set_batch : String → List Pair → PublishState → PublishState
set_batch name batch st = record st { batches = insert name batch st.batches }

abbrev pub recorded : Publisher → List Pair → Option Error → PublishState → PublishState
recorded p batch outcome st = record st {
  calls = st.calls ++ record { publisher = p.name; batch = batch; outcome = outcome } ∷ [];
}

abbrev pub counted : Metric → PublishState → PublishState
counted m st = record st { metrics = st.metrics ++ m ∷ [] }

abbrev is_tlp_violation : ErrorClass → Bool
is_tlp_violation tlp_violation = true
is_tlp_violation _ = false

-- `except TLPViolation`: the batch is dropped. Any other exception leaves `flush`.
abbrev pub refused : Publisher → List Pair → Error → PublishState → Option Error × PublishState
refused p batch e st =
    if is_tlp_violation e.cls
    then (
      none,
      set_batch p.name [] (counted (dropped (str_append "tlp:" p.name) (length batch)) st),
    )
    else (some e, st)

abbrev pub flush_batch : Publisher → List Pair → PublishState → Option Error × PublishState
flush_batch p [] st = (none, st)
flush_batch p (x ∷ xs) st = elim (p.publish (length st.calls) (x ∷ xs)) [
  | none ↦ (
    none,
    set_batch p.name []
        (counted (records_out p.name (length (x ∷ xs))) (recorded p (x ∷ xs) none st)),
  )
  | some e ↦ refused p (x ∷ xs) e (recorded p (x ∷ xs) (some e) st)
]

-- `flush`
unfoldable pub flush : Publisher → PublishState → Option Error × PublishState
unfolding batch_of set_batch
flush p st = flush_batch p (batch_of p.name st) st

-- The body of the loop over the publishers.
unfoldable pub offer : ℕ → Pair → Publisher → PublishState → Option Error × PublishState
unfolding flush
offer batch_size x p st =
    let st' = set_batch p.name (batch_of p.name st ++ x ∷ []) st in
    if leb batch_size (length (batch_of p.name st')) then flush p st' else (none, st')

unfoldable pub offer_all : ℕ → Pair → List Publisher → PublishState → Option Error × PublishState
offer_all batch_size x [] st = (none, st)
offer_all batch_size x (p ∷ ps) st =
    let (raised, st') = offer batch_size x p st in
    elim raised [ none ↦ offer_all batch_size x ps st' | some e ↦ (some e, st') ]

unfoldable pub flush_all : List Publisher → PublishState → Option Error × PublishState
flush_all [] st = (none, st)
flush_all (p ∷ ps) st =
    let (raised, st') = flush p st in
    elim raised [ none ↦ flush_all ps st' | some e ↦ (some e, st') ]

unfoldable pub publish_items :
    List Publisher → ℕ → List Pair → PublishState → Option Error × PublishState
publish_items publishers batch_size [] st = flush_all publishers st
publish_items publishers batch_size (x ∷ inq) st =
    let (raised, st') = offer_all batch_size x publishers st in
    elim raised [ none ↦ publish_items publishers batch_size inq st' | some e ↦ (some e, st') ]

-- `{p.name: [] for p in publishers}`
unfoldable pub empty_batches : List Publisher → Dict (List Pair) → Dict (List Pair)
empty_batches [] d = d
empty_batches (p ∷ ps) d = empty_batches ps (insert p.name [] d)

-- `run_publish`: the exception that it raises, if one, and what it has done. With no publisher the
-- input is read and nothing else happens, as the loop over no publishers would have it.
unfoldable pub run_publish : List Publisher → ℕ → List Pair → Option Error × PublishState
unfolding empty_batches
run_publish [] batch_size inq = (none, record { batches = []; calls = []; metrics = [] })
run_publish (p ∷ ps) batch_size inq =
    publish_items (p ∷ ps) batch_size inq
      (record { batches = empty_batches (p ∷ ps) []; calls = []; metrics = [] })
