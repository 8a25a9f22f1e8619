-- ===== src/Enums.antt =====
-- core/enums.py, with `tlp_max` that security/tlp.py passes on.
pub mod Order
use null.Prelude.{
  ℕ, String, Bool, true, false, Option, none, some, List, [], ◌∷◌, leb, ltb, if◌then◌else◌,
}
use null.Errors.{Result, ok, err, value_error}
use null.Text.{Text, codes, text_eq}

pub data IndicatorType : Type 0 where
  ipv4 ipv6 domain url sha256 sha1 md5 email file_name mutex registry_key yara_rule : IndicatorType

-- `IndicatorType.value`
unfoldable pub type_value : IndicatorType → Text
type_value ipv4 = codes "ipv4"
type_value ipv6 = codes "ipv6"
type_value domain = codes "domain"
type_value url = codes "url"
type_value sha256 = codes "sha256"
type_value sha1 = codes "sha1"
type_value md5 = codes "md5"
type_value email = codes "email"
type_value file_name = codes "file_name"
type_value mutex = codes "mutex"
type_value registry_key = codes "registry_key"
type_value yara_rule = codes "yara_rule"

abbrev pub all_types : List IndicatorType
all_types =
    ipv4 ∷ ipv6 ∷ domain ∷ url ∷ sha256 ∷ sha1 ∷ md5 ∷ email ∷ file_name ∷ mutex ∷ registry_key
    ∷ yara_rule ∷ []

abbrev pub type_among : List IndicatorType → Text → Option IndicatorType
type_among [] s = none
type_among (t ∷ ts) s = if text_eq (type_value t) s then some t else type_among ts s

-- `IndicatorType(s)`, where `none` is its `ValueError`.
unfoldable pub type_of : Text → Option IndicatorType
type_of = type_among all_types

pub data Tlp : Type 0 where
  clear green amber amber_strict red : Tlp

-- `TLP.value`
unfoldable pub tlp_value : Tlp → String
tlp_value clear = "CLEAR"
tlp_value green = "GREEN"
tlp_value amber = "AMBER"
tlp_value amber_strict = "AMBER+STRICT"
tlp_value red = "RED"

-- `_TLP_ORDER`
unfoldable pub tlp_order : Tlp → ℕ
tlp_order clear = 0
tlp_order green = 1
tlp_order amber = 2
tlp_order amber_strict = 3
tlp_order red = 4

-- Python's `max` with a key: the first of the greatest.
unfoldable pub max_from : Tlp → List Tlp → Tlp
unfolding tlp_order
max_from best [] = best
max_from best (t ∷ ts) = max_from (if ltb (tlp_order best) (tlp_order t) then t else best) ts

unfoldable pub tlp_max : List Tlp → Result Tlp
unfolding max_from
tlp_max [] = err (record { cls = value_error; message = "max() iterable argument is empty" })
tlp_max (t ∷ ts) = ok (max_from t ts)

pub data RunState : Type 0 where
  pending running success partial failed : RunState

pub data Severity : Type 0 where
  info low medium high critical : Severity

-- `RunState.value`
abbrev pub run_state_value : RunState → String
run_state_value pending = "PENDING"
run_state_value running = "RUNNING"
run_state_value success = "SUCCESS"
run_state_value partial = "PARTIAL"
run_state_value failed = "FAILED"

-- `Severity.value`
abbrev pub severity_value : Severity → String
severity_value info = "info"
severity_value low = "low"
severity_value medium = "medium"
severity_value high = "high"
severity_value critical = "critical"
