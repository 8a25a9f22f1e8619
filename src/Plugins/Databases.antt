-- ===== src/Plugins/Databases.antt =====
-- plugins/enrichers/geoip.py and plugins/enrichers/asn.py. The library that reads the databases is a
-- parameter: what a database holds of an address, which is a dictionary where it is anything.
pub mod Tagged
use null.Prelude.{
  String, str_eq, Bool, true, false, not, ◌&&◌, ◌||◌, Option, none, some, List, [], ◌∷◌, ◌++◌,
  if◌then◌else◌,
}
use null.Text.{Text, codes}
use null.Enums.{IndicatorType, ipv4, ipv6}
use null.Json.{Value, nothing, dict, Fields, end, field, get_field}
use null.Json.Str.{to_str, truth}
use null.Errors.{Error, Result, ok, err, is_exception, other_error}
use null.Models.{Indicator}
use null.Stages.Normalize.{fromkeys_after}

-- `reader.get`
abbrev pub Reader : Type 0
Reader = Text → Result (Option Fields)

-- The system's part in opening a database: whether a path exists, and what `open_database` comes to,
-- `none` where the library is not installed.
pub record Disk : Type 0 where
  pub exists : String → Bool
  pub open_database : String → Result (Option Reader)

-- `__init__`
unfoldable pub open_reader : Disk → Option String → Result (Option Reader)
open_reader disk none = ok none
open_reader disk (some path) =
    if not (str_eq path "") && disk.exists path then disk.open_database path else ok none

abbrev pub is_address : IndicatorType → Bool
is_address ipv4 = true
is_address ipv6 = true
is_address _ = false

-- `tuple(dict.fromkeys(tags))` with one tag more.
unfoldable pub add_tag : Text → Indicator → Indicator
unfolding fromkeys_after
add_tag tag ind = record ind { tags = fromkeys_after [] (ind.tags ++ tag ∷ []) }

-- `d.get(k)` on what a dictionary holds.
abbrev pub or_none : Option Value → Value
or_none none = nothing
or_none (some v) = v

abbrev pub iso_code : Value → Result Value
iso_code (dict fs) = ok (or_none (get_field "iso_code" fs))
iso_code _ = err (record { cls = other_error; message = "no attribute 'get'" })

-- `(record.get("country") or {}).get("iso_code")`
abbrev pub country_of : Fields → Result Value
country_of found =
    let country = or_none (get_field "country" found) in
    if truth country then iso_code country else ok nothing

abbrev pub country_tag : Result Value → Indicator → Result Indicator
country_tag (err e) ind = err e
country_tag (ok country) ind =
    if truth country then ok (add_tag (codes "country:" ++ to_str country) ind) else ok ind

-- What becomes of the indicator, given the record of its value.
abbrev pub with_country : Fields → Indicator → Result Indicator
with_country found ind = country_tag (country_of found) ind

abbrev pub asn_tag : Option Value → Indicator → Result Indicator
asn_tag none ind = ok ind
asn_tag (some n) ind = ok (add_tag (codes "asn:AS" ++ to_str n) ind)

abbrev pub with_asn : Fields → Indicator → Result Indicator
with_asn found ind = asn_tag (get_field "autonomous_system_number" found) ind

-- `if record`, and `except Exception` around the reading. An empty dictionary has no key.
abbrev pub read :
    (Fields → Indicator → Result Indicator) → Result (Option Fields) → Indicator → Result Indicator
read tagged (err e) ind = if is_exception e.cls then ok ind else err e
read tagged (ok none) ind = ok ind
read tagged (ok (some end)) ind = ok ind
read tagged (ok (some (field k v rest))) ind = tagged (field k v rest) ind

abbrev pub enrich_address :
    (Fields → Indicator → Result Indicator) → Option Reader → Indicator → Result Indicator
enrich_address tagged none ind = ok ind
enrich_address tagged (some reader) ind =
    if is_address ind.type then read tagged (reader ind.value) ind else ok ind

-- `GeoIpEnricher.enrich_sync`
unfoldable pub geoip_enrich : Option Reader → Indicator → Result Indicator
unfolding get_field add_tag
geoip_enrich reader ind = enrich_address with_country reader ind

-- `AsnEnricher.enrich_sync`
unfoldable pub asn_enrich : Option Reader → Indicator → Result Indicator
unfolding get_field add_tag
asn_enrich reader ind = enrich_address with_asn reader ind
