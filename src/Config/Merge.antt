-- ===== src/Config/Merge.antt =====
-- `merge` of config/loader.py: a dictionary is a list of fields with different keys.
use mathlib.Core.Path.{subst}
use null.Prelude.{
  String, str_eq, ◌≡◌, refl, ◌∙◌, Bool, true, false, not, ◌&&◌, Option, none, some, arith, eq_iff,
  inl, inr, Bool-cases, if◌then◌else◌,
}
use null.Json.{Value, dict, Fields, end, field, get_field}

-- `out[k] = v`
unfoldable pub set_field : String → Value → Fields → Fields
set_field k v end = field k v end
set_field k v (field j w rest) =
    if str_eq j k then field j v rest else field j w (set_field k v rest)

-- The loop of `merge`, and the value that it stores for a key of `override`.
unfoldable mutual
  unfolding set_field get_field

  pub merge : Fields → Fields → Fields
  merge out end = out
  merge out (field k v rest) = merge (set_field k (merged_value (get_field k out) v) out) rest

  pub merged_value : Option Value → Value → Value
  merged_value (some (dict base)) (dict v) = dict (merge base v)
  merged_value base v = v

get_field-set_field :
    (k j : String) (v : Value) (fs : Fields)
    → get_field j (set_field k v fs) ≡ (if str_eq k j then some v else get_field j fs)
unfolding get_field set_field
get_field-set_field k j v end = refl
get_field-set_field k j v (field i w rest) =
    ground (arith, eq_iff k j, eq_iff i k, eq_iff i j, get_field-set_field k j v rest)

-- The keys of a dictionary are different.
unfoldable has_field : String → Fields → Bool
has_field k end = false
has_field k (field j v rest) = if str_eq j k then true else has_field k rest

unfoldable pub is_dict : Fields → Bool
unfolding has_field
is_dict end = true
is_dict (field k v rest) = not (has_field k rest) && is_dict rest

absent-get_field : (k : String) (fs : Fields) → has_field k fs ≡ false → get_field k fs ≡ none
unfolding has_field get_field
absent-get_field k end h = refl
absent-get_field k (field j v rest) h = ground (arith, absent-get_field k rest)

abbrev pub overridden : Option Value → Option Value → Option Value
overridden base none = base
overridden base (some v) = some (merged_value base v)

merged-absent :
    (out : Fields) (j k : String) (v : Value) (rest : Fields)
    → has_field j rest ≡ false
    → overridden
        (get_field k (set_field j (merged_value (get_field j out) v) out))
        (get_field k rest)
      ≡ overridden (get_field k out) (get_field k (field j v rest))
unfolding get_field
merged-absent out j k v rest h = elim (Bool-cases (str_eq j k)) [
  | inl same ↦
      rw (get_field-set_field, same)
        (subst
          (λ i.
            overridden (some (merged_value (get_field j out) v)) (get_field i rest)
            ≡ some (merged_value (get_field i out) v))
          ((eq_iff j k).0 same) (rw (absent-get_field j rest h) refl))
  | inr other ↦ rw (get_field-set_field, other) refl
]

-- What a key of the merged dictionary holds: a key that `override` has not got is as in `base`; a
-- dictionary in both is merged in the same way; and any other value of `override` stands alone, a
-- list in place of a list.
pub get_field-merge :
    (base override : Fields) (k : String)
    → is_dict override ≡ true
    → get_field k (merge base override) ≡ overridden (get_field k base) (get_field k override)
unfolding merge get_field is_dict
get_field-merge base end k h = refl
get_field-merge base (field j v rest) k h =
    get_field-merge (set_field j (merged_value (get_field j base) v) base) rest k (ground arith)
    ∙ merged-absent base j k v rest (ground arith)
