-- ===== src/Plugins/Allowlist.antt =====
-- plugins/enrichers/allowlist.py. `ipaddress.ip_address` is given by the address that a text denotes
-- and the text that it prints it as.
pub mod Dropped
use null.Prelude.{Bool, true, false, ◌&&◌, ◌||◌, Option, none, some, List, [], ◌∷◌, if◌then◌else◌}
use null.Text.{Text, text_eq, lower, starts_with}
use null.Enums.{IndicatorType, ipv4, ipv6, domain, url}
use null.Models.{Indicator}
use null.Egress.{IpAddress, v6, IpNetwork, net4, net6, any_net}
use null.Hashing.{ends_with}

-- `_PRIVATE_NETS`
abbrev pub private_nets : List IpNetwork
private_nets =
    net4 10 0 0 0 8
    ∷ net4 172 16 0 0 12
    ∷ net4 192 168 0 0 16
    ∷ net4 127 0 0 0 8
    ∷ net4 169 254 0 0 16
    ∷ record { first = v6 1; size = 1 }
    ∷ net6 64512 7
    ∷ net6 65152 10
    ∷ []

pub record AllowlistConfig : Type 0 where
  pub drop_private_ips : Bool
  pub domains : List Text
  pub ips : List Text
  pub urls : List Text

abbrev pub IpParser : Type 0
IpParser = Text → Option (IpAddress × Text)

unfoldable pub is_listed : Text → List Text → Bool
unfolding text_eq
is_listed t [] = false
is_listed t (s ∷ ss) = text_eq t s || is_listed t ss

-- `v == d or v.endswith("." + d)`, for a value and a domain in lower case
abbrev pub is_below : Text → Text → Bool
is_below v d = text_eq v d || ends_with v (b'.' ∷ d)

-- The loop over the domains.
unfoldable pub in_domains : Text → List Text → Bool
unfolding lower
in_domains v [] = false
in_domains v (d ∷ ds) = is_below v (lower d) || in_domains v ds

-- The loop over the URLs.
unfoldable pub in_urls : Text → List Text → Bool
unfolding starts_with
in_urls value [] = false
in_urls value (u ∷ us) = starts_with value u || in_urls value us

-- A value that is no address is kept.
abbrev pub is_listed_ip : AllowlistConfig → Option (IpAddress × Text) → Bool
is_listed_ip config none = false
is_listed_ip config (some (ip, shown)) =
    (config.drop_private_ips && any_net ip private_nets) || is_listed shown config.ips

-- Whether an indicator of this type and value is dropped.
abbrev pub is_allowlisted : AllowlistConfig → IpParser → IndicatorType → Text → Bool
is_allowlisted config parse ipv4 value = is_listed_ip config (parse value)
is_allowlisted config parse ipv6 value = is_listed_ip config (parse value)
is_allowlisted config parse domain value = in_domains (lower value) config.domains
is_allowlisted config parse url value = in_urls value config.urls
is_allowlisted config parse _ value = false

-- `AllowlistEnricher.enrich_sync`
unfoldable pub enrich_sync : AllowlistConfig → IpParser → Indicator → Option Indicator
unfolding is_listed in_domains in_urls
enrich_sync config parse ind =
    if is_allowlisted config parse ind.type ind.value then none else some ind
