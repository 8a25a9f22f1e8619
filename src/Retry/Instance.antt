-- ===== src/Retry/Instance.antt =====
-- A loop of attempts that has the documented properties.
use null.Prelude.{ℕ, zero, suc, ◌+◌, ◌-◌, ◌≡◌, Bool, true, false, arith}
use null.Models.{RunResult}
use null.Pipeline.{Raised, Outcome, returns, raises}
use null.Retry.{Attempts, AsyncRetrying}

abbrev one_more : Outcome RunResult × ℕ → Outcome RunResult × ℕ
one_more (outcome, made) = (outcome, made + 1)

-- On the attempts left after the first.
pub attempt_loop : ℕ → (Raised → Bool) → Attempts → Outcome RunResult × ℕ
attempt_loop zero retry fn = (fn 0, 1)
attempt_loop (suc left) retry fn = elim (fn 0) [
  | returns a ↦ (returns a, 1)
  | raises r ↦ elim (retry r) [
    | true ↦ one_more (attempt_loop left retry (λ n. fn (suc n)))
    | false ↦ (raises r, 1)
  ]
]

pub attempt_loop_returns :
    (left : ℕ) (retry : Raised → Bool) (fn : Attempts) (a : RunResult)
    → fn 0 ≡ returns a
    → attempt_loop left retry fn ≡ (returns a, 1)
unfolding attempt_loop
attempt_loop_returns zero retry fn a e = rw e
attempt_loop_returns (suc left) retry fn a e = rw (e, attempt_loop)

pub attempt_loop_stops :
    (left : ℕ) (retry : Raised → Bool) (fn : Attempts) (r : Raised)
    → fn 0 ≡ raises r
    → retry r ≡ false
    → attempt_loop left retry fn ≡ (raises r, 1)
unfolding attempt_loop
attempt_loop_stops zero retry fn r e h = rw e
attempt_loop_stops (suc left) retry fn r e h = ground arith

pub attempt_loop_last :
    (left : ℕ) (retry : Raised → Bool) (fn : Attempts) (r : Raised)
    → fn 0 ≡ raises r
    → left ≡ 0
    → attempt_loop left retry fn ≡ (raises r, 1)
unfolding attempt_loop
attempt_loop_last zero retry fn r e h = rw e
attempt_loop_last (suc left) retry fn r e h = absurd (omega arith)

pub attempt_loop_again :
    (left left' : ℕ) (retry : Raised → Bool) (fn : Attempts) (r : Raised)
    → left ≡ suc left'
    → fn 0 ≡ raises r
    → retry r ≡ true
    → attempt_loop left retry fn ≡ one_more (attempt_loop left' retry (λ n. fn (suc n)))
unfolding attempt_loop
attempt_loop_again left left' retry fn r l e h = rw l (rw (e, attempt_loop) (rw h))

abbrev pub attempts_in_turn : AsyncRetrying
attempts_in_turn = record {
  loop = λ max retry fn. attempt_loop (max - 1) retry fn;
  loop_returns = λ max. attempt_loop_returns (max - 1);
  loop_stops = λ max. attempt_loop_stops (max - 1);
  loop_last = λ max retry fn r e h. attempt_loop_last (max - 1) retry fn r e (omega arith);
  loop_again = λ max retry fn r e h more.
      attempt_loop_again (max - 1) (max - 1 - 1) retry fn r (omega arith) e h;
}
