-- ===== src/Plugins/LoaderTests.antt =====
-- Two installed packages, and what the databases say of an address.
use null.Prelude.{◌≡◌, refl, ◌⊎◌, none, some, List, [], ◌∷◌, String}
use null.Dict.{Dict, lookup, insert}
use null.Errors.{ok}
use null.Text.{codes}
use null.Enums.{ipv4, info, amber}
use null.Json.{str, dict, field, end}
use null.Models.{Indicator}
use null.Plugins.Loader.{
  EntryPoint, of_group, named, discover_group, discover_groups, discover, load, load_first,
}
use null.Plugins.Loader.Discovered.{distinct, discover-load}
use null.Plugins.Databases.{Reader}

-- A class is its name.
abbrev entry : String → String → EntryPoint String
entry group name = record { group = group; name = name; load = ok name }

abbrev entries : List (EntryPoint String)
entries = entry "cti.parsers" "json" ∷ entry "cti.parsers" "csv" ∷ entry "cti.enrichers" "csv" ∷ []

abbrev found : Dict (Dict String)
found =
    ("cti.connectors", [])
    ∷ ("cti.parsers", ("json", "json") ∷ ("csv", "csv") ∷ [])
    ∷ ("cti.enrichers", ("csv", "csv") ∷ [])
    ∷ ("cti.publishers", [])
    ∷ []

discover-load_example :
    (d : Dict String) × (lookup "cti.parsers" found ≡ some d)
    × (((cls : String) × (lookup "csv" d ≡ some cls) × (load entries "cti.parsers" "csv" ≡ ok cls))
        ⊎ ((lookup "csv" d ≡ none)
            × (load entries "cti.parsers" "csv" ≡ load_first "cti.parsers" "csv" [])))
unfolding discover discover_groups discover_group of_group named insert lookup distinct
discover-load_example = discover-load entries found "cti.parsers" "csv" refl refl refl

abbrev reader : Reader
reader value = ok (some (field "country" (dict (field "iso_code" (str (codes "DE")) end)) end))

abbrev address : Indicator
address = record {
  id = 1;
  type = ipv4;
  value = codes "192.0.2.1";
  pattern = none;
  confidence = 50;
  severity = info;
  tlp = amber;
  tags = codes "c2" ∷ [];
  first_seen_by_us = 0;
  last_seen_by_us = 0;
  valid_from = none;
  valid_until = none;
  schema_version = "1";
}

abbrev located : Indicator
located = record address { tags = codes "c2" ∷ codes "country:DE" ∷ [] }
