-- ===== src/Tables/Assoc.antt =====
-- Tables as association lists.
use null.Prelude.{
  ℕ, String, ◌≡◌, ◌≢◌, Option, none, some, List, [], ◌∷◌, arith, ◌==◌, if◌then◌else◌,
}
use null.Dict.{Dict, lookup, insert, lookup-insert_self, lookup-insert_ne}
use null.Tables.{Table}

-- Keyed by a text.
abbrev pub text_table : (V : Type 0) → Table String V
text_table V = record {
  Rows = Dict V;
  get = lookup;
  put = insert;
  get-put_self = lookup-insert_self;
  get-put_ne = lookup-insert_ne;
}

module _ {V : Type 0} where
  unfoldable pub find : ℕ → List (ℕ × V) → Option V
  find k [] = none
  find k ((j, v) ∷ t) = if j == k then some v else find k t

  pub find-cons_self : (k : ℕ) (v : V) (t : List (ℕ × V)) → find k ((k, v) ∷ t) ≡ some v
  unfolding find
  find-cons_self k v t = ground arith

  pub find-cons_ne : (k j : ℕ) (v : V) (t : List (ℕ × V)) → k ≢ j → find j ((k, v) ∷ t) ≡ find j t
  unfolding find
  find-cons_ne k j v t ne = ground arith

-- Keyed by a number.
abbrev pub number_table : (V : Type 0) → Table ℕ V
number_table V = record {
  Rows = List (ℕ × V);
  get = find;
  put = λ k v t. (k, v) ∷ t;
  get-put_self = find-cons_self;
  get-put_ne = find-cons_ne;
}
