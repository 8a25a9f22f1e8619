-- ===== src/Plugins/Tlp.antt =====
-- plugins/publishers/webhook.py and plugins/publishers/kafka.py: which pairs leave the system. The
-- HTTP client and the Kafka producer are given by the exception of each call, if it raises one.
pub mod Filter
use null.Prelude.{
  ℕ, ◌+◌, leb, String, str_eq, Bool, true, false, Option, none, some, List, [], ◌∷◌, if◌then◌else◌,
}
use null.Errors.{Error, Result, ok, err, ◌>>=◌, key_error, tlp_violation}
use null.Enums.{Tlp, tlp_value}
use null.Models.{Indicator, Observation}
use null.Stages.Persist.{Pair}

-- `_TLP_RANK`, which both files have
abbrev pub tlp_ranks : List (String × ℕ)
tlp_ranks = ("CLEAR", 0) ∷ ("GREEN", 1) ∷ ("AMBER", 2) ∷ ("AMBER+STRICT", 3) ∷ ("RED", 4) ∷ []

abbrev rank_in : String → List (String × ℕ) → Result ℕ
rank_in name [] = err (record { cls = key_error; message = name })
rank_in name ((known, rank) ∷ ranks) = if str_eq known name then ok rank else rank_in name ranks

-- `_TLP_RANK[name]`
unfoldable pub tlp_rank : String → Result ℕ
tlp_rank name = rank_in name tlp_ranks

abbrev pub allowed : Result ℕ → ℕ → Bool
allowed (ok rank) max_allowed = leb rank max_allowed
allowed (err e) max_allowed = false

-- The comprehension over the batch: every marking has a rank.
unfoldable pub filtered : ℕ → List Pair → List Pair
filtered max_allowed [] = []
filtered max_allowed ((ind, obs) ∷ batch) =
    let rest = filtered max_allowed batch in
    if allowed (tlp_rank (tlp_value ind.tlp)) max_allowed then (ind, obs) ∷ rest else rest

-- What a publisher has sent: the batches, each in one call, and the exception of `publish`.
pub record Sent : Type 0 where
  pub calls : List (List Pair)
  pub raised : Option Error

abbrev pub violation : Sent
violation = record {
  calls = [];
  raised = some (record { cls = tlp_violation; message = "all records exceed max_tlp" });
}

-- One POST for all pairs, whatever it comes to.
abbrev pub post : Option Error → List Pair → Sent
post fails [] = violation
post fails (p ∷ ps) = record { calls = (p ∷ ps) ∷ []; raised = fails }

abbrev pub post_allowed : Option Error → Result ℕ → List Pair → Sent
post_allowed fails (err e) batch = record { calls = []; raised = some e }
post_allowed fails (ok max_allowed) batch = post fails (filtered max_allowed batch)

-- `WebhookPublisher.publish`
unfoldable pub webhook_publish : String → Option Error → List Pair → Sent
webhook_publish max_tlp fails batch = post_allowed fails (tlp_rank max_tlp) batch

abbrev pub sent_first : Pair → Sent → Sent
sent_first p rest = record rest { calls = (p ∷ []) ∷ rest.calls }

-- One message for each pair, until a call raises. The argument is the number of calls before.
unfoldable pub send_each : (ℕ → Option Error) → ℕ → List Pair → Sent
send_each fails calls [] = record { calls = []; raised = none }
send_each fails calls (p ∷ ps) = elim (fails calls) [
  | some e ↦ record { calls = (p ∷ []) ∷ []; raised = some e }
  | none ↦ sent_first p (send_each fails (calls + 1) ps)
]

abbrev pub send_all : (ℕ → Option Error) → List Pair → Sent
send_all fails [] = violation
send_all fails (p ∷ ps) = send_each fails 0 (p ∷ ps)

abbrev pub send_allowed : (ℕ → Option Error) → Result ℕ → List Pair → Sent
send_allowed fails (err e) batch = record { calls = []; raised = some e }
send_allowed fails (ok max_allowed) batch = send_all fails (filtered max_allowed batch)

-- `KafkaPublisher.publish`, with a producer that has started
unfoldable pub kafka_publish : String → (ℕ → Option Error) → List Pair → Sent
kafka_publish max_tlp fails batch = send_allowed fails (tlp_rank max_tlp) batch
