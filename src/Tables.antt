-- ===== src/Tables.antt =====
-- The rows that the code reads and writes through SQLAlchemy, as an interface: a table maps a
-- primary key to a row, and `get` finds the row that was put last.
pub mod Assoc
use null.Prelude.{ℕ, String, ◌≡◌, ◌≢◌, Option, none, some}

pub record Table (K V : Type 0) : Type 1 where
  pub Rows : Type 0
  pub get : K → Rows → Option V
  pub put : K → V → Rows → Rows
  pub get-put_self : (k : K) (v : V) (t : Rows) → get k (put k v t) ≡ some v
  pub get-put_ne : (k j : K) (v : V) (t : Rows) → k ≢ j → get j (put k v t) ≡ get j t
