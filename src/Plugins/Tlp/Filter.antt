-- ===== src/Plugins/Tlp/Filter.antt =====
-- No pair that is marked more strictly than the configuration allows leaves the system.
use null.Prelude.{
  ℕ, ◌+◌, ◌≤◌, leb, ◌≡◌, refl, ap, ◌∙◌, leb→le, Option, none, some, List, [], ◌∷◌, All, Bool-cases,
  Option-cases, inl, inr,
}
use null.Errors.{Error, Result, ok}
use null.Enums.{Tlp, clear, green, amber, amber_strict, red, tlp_value, tlp_order}
use null.Stages.Persist.{Pair}
use null.Plugins.Tlp.{
  tlp_rank, allowed, filtered, sent_first, post, webhook_publish, send_each, send_all,
  kafka_publish,
}

-- The ranks of the publishers agree with the order of the markings.
pub tlp_rank_lem : (t : Tlp) → tlp_rank (tlp_value t) ≡ ok (tlp_order t)
unfolding tlp_rank tlp_value tlp_order
tlp_rank_lem clear = refl
tlp_rank_lem green = refl
tlp_rank_lem amber = refl
tlp_rank_lem amber_strict = refl
tlp_rank_lem red = refl

abbrev pub IsAllowed : ℕ → Pair → Type 0
IsAllowed max_allowed (ind, obs) = tlp_order ind.tlp ≤ max_allowed

filtered-IsAllowed : (n : ℕ) (batch : List Pair) → All (IsAllowed n) (filtered n batch)
unfolding filtered
filtered-IsAllowed n [] = tt
filtered-IsAllowed n ((ind, obs) ∷ batch) =
    let rest = filtered n batch in
    let rank = ap (λ (r : Result ℕ). allowed r n) (tlp_rank_lem ind.tlp) in
    elim (Bool-cases (leb (tlp_order ind.tlp) n)) [
      | inl small ↦
          rw (rank ∙ small) (leb→le (tlp_order ind.tlp) n small, filtered-IsAllowed n batch)
      | inr large ↦ rw (rank ∙ large) (filtered-IsAllowed n batch)
    ]

send_each-sent :
    (fails : ℕ → Option Error) (calls : ℕ) (p : Pair) (ps : List Pair)
    → fails calls ≡ none
    → send_each fails calls (p ∷ ps) ≡ sent_first p (send_each fails (calls + 1) ps)
unfolding send_each
send_each-sent fails calls p ps e = rw (e, send_each)

send_each-failed :
    (fails : ℕ → Option Error) (calls : ℕ) (p : Pair) (ps : List Pair) {e : Error}
    → fails calls ≡ some e
    → send_each fails calls (p ∷ ps) ≡ record { calls = (p ∷ []) ∷ []; raised = some e }
unfolding send_each
send_each-failed fails calls p ps e = rw (e, send_each)

post-IsAllowed :
    (n : ℕ) (fails : Option Error) (ps : List Pair)
    → All (IsAllowed n) ps
    → All (All (IsAllowed n)) (post fails ps).calls
post-IsAllowed n fails [] h = tt
post-IsAllowed n fails (p ∷ ps) h = (h, tt)

send_each-IsAllowed :
    (n : ℕ) (fails : ℕ → Option Error) (calls : ℕ) (ps : List Pair)
    → All (IsAllowed n) ps
    → All (All (IsAllowed n)) (send_each fails calls ps).calls
unfolding send_each
send_each-IsAllowed n fails calls [] h = tt
send_each-IsAllowed n fails calls (p ∷ ps) h = elim (Option-cases (fails calls)) [
  | inl sent ↦
      rw (send_each-sent fails calls p ps sent)
        ((h.0, tt), send_each-IsAllowed n fails (calls + 1) ps h.1)
  | inr (e, failed) ↦ rw (send_each-failed fails calls p ps failed) ((h.0, tt), tt)
]

send_all-IsAllowed :
    (n : ℕ) (fails : ℕ → Option Error) (ps : List Pair)
    → All (IsAllowed n) ps
    → All (All (IsAllowed n)) (send_all fails ps).calls
send_all-IsAllowed n fails [] h = tt
send_all-IsAllowed n fails (p ∷ ps) h = send_each-IsAllowed n fails 0 (p ∷ ps) h

-- Whatever the batch and the endpoint: each pair that the webhook or Kafka is sent has a marking
-- that is no stricter than the one that `max_tlp` names.
pub publish-IsAllowed :
    (t : Tlp) (fails : Option Error) (fails' : ℕ → Option Error) (batch : List Pair)
    → All (All (IsAllowed (tlp_order t))) (webhook_publish (tlp_value t) fails batch).calls
      × All (All (IsAllowed (tlp_order t))) (kafka_publish (tlp_value t) fails' batch).calls
unfolding webhook_publish kafka_publish
publish-IsAllowed t fails fails' batch =
    let n = tlp_order t in
    let some_allowed = filtered-IsAllowed n batch in
    rw (tlp_rank_lem t) (
      post-IsAllowed n fails (filtered n batch) some_allowed,
      send_all-IsAllowed n fails' (filtered n batch) some_allowed,
    )
