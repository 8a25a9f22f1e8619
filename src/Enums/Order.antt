-- ===== src/Enums/Order.antt =====
-- `tlp_max` is the strictest marking of its arguments.
use null.Prelude.{
  ◌≤◌, ◌≡◌, refl, sym, ◌⊎◌, inl, inr, List, [], ◌∷◌, All, arith, true, false, ltb, ltb→lt,
  not-ltb→le, Bool-cases,
}
use mathlib.Core.Path.{subst}
use native.Mathlib.Nat.{le_trans, le_of_lt}
use null.Errors.{ok}
use null.Enums.{Tlp, tlp_order, max_from, tlp_max}

-- Membership by recursion.
abbrev pub IsAmong : Tlp → List Tlp → Type 0
IsAmong t [] = ⊥
IsAmong t (u ∷ us) = (t ≡ u) ⊎ IsAmong t us

-- The order has no two markings of the same rank.
pub tlp_order_injective : (t u : Tlp) → tlp_order t ≡ tlp_order u → t ≡ u
unfolding tlp_order
tlp_order_injective t u h = ground arith

max_from-IsAmong :
    (best : Tlp) (ts : List Tlp) → (max_from best ts ≡ best) ⊎ IsAmong (max_from best ts) ts
unfolding max_from
max_from-IsAmong best [] = inl refl
max_from-IsAmong best (t ∷ ts) = ground (arith, max_from-IsAmong t ts, max_from-IsAmong best ts)

max_from-less :
    (best t : Tlp) (ts : List Tlp)
    → ltb (tlp_order best) (tlp_order t) ≡ true
    → max_from best (t ∷ ts) ≡ max_from t ts
unfolding max_from
max_from-less best t ts less = rw less

max_from-more :
    (best t : Tlp) (ts : List Tlp)
    → ltb (tlp_order best) (tlp_order t) ≡ false
    → max_from best (t ∷ ts) ≡ max_from best ts
unfolding max_from
max_from-more best t ts more = rw more

max_from-nil : (best : Tlp) → max_from best [] ≡ best
unfolding max_from
max_from-nil best = refl

-- `r` is at least as strict as `best` and as each of `ts`.
abbrev Bounds : Tlp → List Tlp → Tlp → Type 0
Bounds best ts r = (tlp_order best ≤ tlp_order r) × All (λ t. tlp_order t ≤ tlp_order r) ts

max_from-bound : (best : Tlp) (ts : List Tlp) → Bounds best ts (max_from best ts)
max_from-bound best [] = rw max_from-nil (omega arith)
max_from-bound best (t ∷ ts) = elim (Bool-cases (ltb (tlp_order best) (tlp_order t))) [
  | inl less ↦
      let (above, all) = max_from-bound t ts in
      subst (Bounds best (t ∷ ts)) (sym (max_from-less best t ts less))
        (le_trans (le_of_lt (ltb→lt _ _ less)) above, (above, all))
  | inr more ↦
      let (above, all) = max_from-bound best ts in
      subst (Bounds best (t ∷ ts)) (sym (max_from-more best t ts more))
        (above, (le_trans (not-ltb→le _ _ more) above, all))
]

-- With at least one marking `tlp_max` returns one of them, and none of them is stricter.
pub tlp_max-strictest :
    (t : Tlp) (ts : List Tlp)
    → (r : Tlp) × (tlp_max (t ∷ ts) ≡ ok r)
      × IsAmong r (t ∷ ts)
      × All (λ u. tlp_order u ≤ tlp_order r) (t ∷ ts)
unfolding tlp_max
tlp_max-strictest t ts = (max_from t ts, refl, max_from-IsAmong t ts, max_from-bound t ts)
