-- ===== src/Stages/Normalize.antt =====
-- core/stages/normalize.py
pub mod Tags
pub mod Skipping
use null.Prelude.{
  ℕ, ℤ, String, str_eq, Bool, true, false, not, ◌||◌, Option, none, some, List, [], ◌∷◌, ◌++◌,
  if◌then◌else◌,
}
use null.Errors.{
  Error, ErrorClass, Result, ok, err, ◌>>=◌, is_permanent, permanent_error, value_error, type_error,
}
use null.Enums.{IndicatorType, type_of, Tlp, Severity}
use null.Text.{Text, is_empty, text_eq, lower, strip, split}
use null.Json.{Value, nothing, str, list, Items, nil, cons, Fields, get_field}
use null.Json.Str.{to_str, truth, to_int}
use null.Models.{Indicator}
use null.Models.Build.{BuildFields, build}
use null.Hashing.{TextLibrary}
use null.Stages.Run.{StageRun, parse_errors, emit, counting, returned, raising}

-- `NormalizeConfig`, but for the three fields that no code reads.
pub record NormalizeConfig : Type 0 where
  pub indicator_type : Option IndicatorType
  pub type_field : Option String
  pub value_field : String
  pub confidence_default : ℤ
  pub confidence_field : Option String
  pub severity_default : Severity
  pub tlp_default : Tlp
  pub static_tags : List Text
  pub tags_field : Option String
  pub skip_on_error : Bool

abbrev permanent {ℓ} : {A : Type ℓ} → String → Result A
permanent message = err (record { cls = permanent_error; message = message })

-- `_coerce_type`
unfoldable pub coerce_type : Text → Result IndicatorType
unfolding type_of lower
coerce_type raw = elim (type_of (lower raw)) [
  | none ↦ permanent "unknown indicator type"
  | some type ↦ ok type
]

-- The type from its field: `none` where the field is missing or falsy.
abbrev typed_by : Option Value → Result (Option IndicatorType)
typed_by none = ok none
typed_by (some v) = if truth v then (do type ← coerce_type (to_str v); ok (some type)) else ok none

abbrev pub find_type : NormalizeConfig → Fields → Result (Option IndicatorType)
find_type cfg fields = elim cfg.type_field [
  | some name ↦ typed_by (get_field name fields)
  | none ↦ elim cfg.indicator_type [
    | some type ↦ ok (some type)
    | none ↦ permanent "normalize: indicator_type or type_field must be set"
  ]
]

-- The value of a field whose name is given and not empty, if the record has it.
abbrev pub optional_field : Option String → Fields → Option Value
optional_field none fields = none
optional_field (some name) fields = if str_eq name "" then none else get_field name fields

-- `except (TypeError, ValueError): pass`
abbrev pub is_type_or_value_error : ErrorClass → Bool
is_type_or_value_error value_error = true
is_type_or_value_error type_error = true
is_type_or_value_error _ = false

abbrev or_default : ℤ → Result ℤ → Result ℤ
or_default default (ok n) = ok n
or_default default (err e) = if is_type_or_value_error e.cls then ok default else err e

abbrev pub find_confidence : NormalizeConfig → Fields → Result ℤ
find_confidence cfg fields = elim (optional_field cfg.confidence_field fields) [
  | none ↦ ok cfg.confidence_default
  | some v ↦ or_default cfg.confidence_default (to_int v)
]

unfoldable pub strings_of : Items → List Text
strings_of nil = []
strings_of (cons v vs) = to_str v ∷ strings_of vs

unfoldable pub stripped_parts : List Text → List Text
unfolding strip
stripped_parts [] = []
stripped_parts (t ∷ ts) =
    let rest = stripped_parts ts in if is_empty (strip t) then rest else strip t ∷ rest

abbrev raw_tags : Option Value → List Text
raw_tags (some (list vs)) = strings_of vs
raw_tags (some (str s)) = stripped_parts (split b',' s)
raw_tags _ = []

unfoldable pub tag_in : Text → List Text → Bool
unfolding text_eq
tag_in t [] = false
tag_in t (u ∷ us) = text_eq u t || tag_in t us

-- `dict.fromkeys`: each tag once, where it stands first. The first argument is what was seen.
unfoldable pub fromkeys_after : List Text → List Text → List Text
unfolding tag_in
fromkeys_after seen [] = []
fromkeys_after seen (t ∷ ts) = elim (tag_in t seen) [
  | true ↦ fromkeys_after seen ts
  | false ↦ t ∷ fromkeys_after (t ∷ seen) ts
]

unfoldable pub find_tags : NormalizeConfig → Fields → List Text
unfolding fromkeys_after strings_of stripped_parts split
find_tags cfg fields =
    fromkeys_after [] (cfg.static_tags ++ raw_tags (optional_field cfg.tags_field fields))

-- `value is None or value == ""`
abbrev pub is_missing : Option Value → Bool
is_missing none = true
is_missing (some nothing) = true
is_missing (some (str s)) = is_empty s
is_missing (some _) = false

abbrev pub str_of : Option Value → Text
str_of none = []
str_of (some v) = to_str v

module _ (library : TextLibrary) (now : ℕ) (cfg : NormalizeConfig) where
  abbrev pub build_record : Fields → Option IndicatorType → Result (Option Indicator)
  build_record fields none = ok none
  build_record fields (some type) =
      let value = get_field cfg.value_field fields in
      if is_missing value then ok none else do
        confidence ← find_confidence cfg fields
        indicator ← build library now type (str_of value) (record {
          confidence = confidence;
          severity = cfg.severity_default;
          tlp = cfg.tlp_default;
          tags = find_tags cfg fields;
        })
        ok (some indicator)

  -- `_record_to_indicator`
  unfoldable pub record_to_indicator : Fields → Result (Option Indicator)
  record_to_indicator fields = find_type cfg fields >>= build_record fields

  -- `except (ValueError, PermanentError)`; a `ValidationError` of pydantic is a `ValueError`.
  abbrev pub is_skippable : ErrorClass → Bool
  is_skippable value_error = true
  is_skippable cls = is_permanent cls

  -- The handler of an exception, given what the rest of the loop does.
  abbrev pub on_error : Error → StageRun (Indicator × Fields) → StageRun (Indicator × Fields)
  on_error e rest =
      if is_skippable e.cls
      then counting parse_errors (if cfg.skip_on_error then rest else raising e)
      else raising e

  abbrev pub normalized :
      Fields
      → Result (Option Indicator)
      → StageRun (Indicator × Fields)
      → StageRun (Indicator × Fields)
  normalized fields (ok none) rest = rest
  normalized fields (ok (some indicator)) rest = emit (indicator, fields) rest
  normalized fields (err e) rest = on_error e rest

  -- `run_normalize`
  unfoldable pub run_normalize : List Fields → StageRun (Indicator × Fields)
  unfolding record_to_indicator
  run_normalize [] = returned
  run_normalize (fields ∷ inq) = normalized fields (record_to_indicator fields) (run_normalize inq)
