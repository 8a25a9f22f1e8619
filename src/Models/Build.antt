-- ===== src/Models/Build.antt =====
-- `Indicator.build` of core/models.py.
use null.Prelude.{
  ℕ, ℤ, pos, negsuc, ◌≡◌, refl, ap, sym, ◌∙◌, ◌≤◌, true, none, List, ◌∷◌, ◌++◌, leb, arith,
  if◌then◌else◌,
}
use null.Errors.{Result, ok, ◌>>=◌}
use null.Enums.{IndicatorType, type_value, Tlp, Severity}
use null.Text.{Text, strip, lower}
use null.Text.Strip.{strip_idem, strip-lower}
use null.Models.{Indicator, schema_version}
use null.Hashing.{TextLibrary, canonicalize, indicator_uuid, refuse}
use null.Hashing.Canonical.{is_folded, canonicalize_folded}

-- The fields that a caller of `build` gives.
pub record BuildFields : Type 0 where
  pub confidence : ℤ
  pub severity : Severity
  pub tlp : Tlp
  pub tags : List Text

-- The constraint of the field `confidence`, `ge=0, le=100`.
unfoldable pub checked_confidence : ℤ → Result ℕ
checked_confidence (pos n) = if leb n 100 then ok n else refuse "confidence"
checked_confidence (negsuc n) = refuse "confidence"

in_range : (n : ℕ) → n ≤ 100 → checked_confidence (pos n) ≡ ok n
unfolding checked_confidence
in_range n h = ground arith

module _ (library : TextLibrary) (now : ℕ) where
  -- The indicator that the constructor makes. The value is stripped once more by the validator of
  -- its field.
  abbrev pub made : IndicatorType → Text → BuildFields → ℕ → ℕ → Indicator
  made type canonical fields id confidence = record {
    id = id;
    type = type;
    value = strip canonical;
    pattern = none;
    confidence = confidence;
    severity = fields.severity;
    tlp = fields.tlp;
    tags = fields.tags;
    first_seen_by_us = now;
    last_seen_by_us = now;
    valid_from = none;
    valid_until = none;
    schema_version = schema_version;
  }

  unfoldable pub build : IndicatorType → Text → BuildFields → Result Indicator
  build type value fields = do
    canonical ← canonicalize library type value
    id ← indicator_uuid library type canonical
    confidence ← checked_confidence fields.confidence
    ok (made type canonical fields id confidence)

  -- A value whose canonical form is its own: `build` makes the indicator of that form.
  build_from :
      (t : IndicatorType) (v c : Text) (fields : BuildFields) {n : ℕ}
      → canonicalize library t v ≡ ok c
      → canonicalize library t c ≡ ok c
      → checked_confidence fields.confidence ≡ ok n
      → build t v fields ≡ ok (made t c fields (library.uuid5 (type_value t ++ b':' ∷ c)) n)
  unfolding build indicator_uuid
  build_from t v c fields e e' inside = rw (e, e', inside) refl

  stripped :
      (t : IndicatorType) (v c : Text)
      → is_folded t ≡ true
      → canonicalize library t v ≡ ok c
      → strip c ≡ c
  stripped t v c h e =
      let folded = (canonicalize_folded library t v h e).0 in
      ap strip folded ∙ strip-lower (strip v) ∙ ap lower (strip_idem v) ∙ sym folded

  -- A value of a folded type that has a canonical form, with a confidence in range: `build` returns
  -- an indicator, whose value is the canonical form and whose identifier is `uuid5` of the type's
  -- name, a colon and that form; the value in lower case and the canonical form itself make the
  -- same indicator.
  pub build_folded :
      (t : IndicatorType) (v c : Text) (fields : BuildFields) {n : ℕ}
      → is_folded t ≡ true
      → canonicalize library t v ≡ ok c
      → fields.confidence ≡ pos n
      → n ≤ 100
      → (i : Indicator) × (build t v fields ≡ ok i)
        × (i.value ≡ c)
        × (i.id ≡ library.uuid5 (type_value t ++ b':' ∷ c))
        × (build t (lower v) fields ≡ ok i)
        × (build t c fields ≡ ok i)
  build_folded t v c fields {n} h e inside le =
      let (folded, again, lowered, outer) = canonicalize_folded library t v h e in
      let range = ap checked_confidence inside ∙ in_range n le in
      let by = λ (u : Text) (eq : canonicalize library t u ≡ ok c).
        build_from t u c fields {n = n} eq again range in
      (
        made t c fields (library.uuid5 (type_value t ++ b':' ∷ c)) n,
        by v e,
        stripped t v c h e,
        refl,
        by (lower v) lowered,
        by c again,
      )
