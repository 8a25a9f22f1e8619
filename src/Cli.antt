-- ===== src/Cli.antt =====
-- cli/commands: what a command prints, given by its parts and not as one text, and how it ends.
pub mod Runs
pub mod Dlq
pub mod Sources
pub mod Masking
pub mod Settings
mod Tests
use null.Prelude.{ℕ}
use null.Errors.{Result, ok, err}
use null.Pipeline.{Raised, one, Outcome, returns, raises}

-- A command prints and returns, exits with a code by `typer.Exit`, or raises.
pub data CommandEnd {ℓ} (A : Type ℓ) : Type ℓ where
  prints : A → CommandEnd A
  exits : ℕ → CommandEnd A
  crashes : Raised → CommandEnd A

module _ {ℓ κ} {A : Type ℓ} {B : Type κ} where
  -- What is printed of the value that a call returns.
  abbrev pub printed : (A → B) → Outcome A → CommandEnd B
  printed shown (returns a) = prints (shown a)
  printed shown (raises r) = crashes r

  abbrev pub shown_result : (A → B) → Result A → CommandEnd B
  shown_result shown (ok a) = prints (shown a)
  shown_result shown (err e) = crashes (one e)
