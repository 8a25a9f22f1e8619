-- ===== src/Egress/Tests.antt =====
-- A host with one public address, and what the networks do not cover.
use null.Prelude.{
  ◌+◌, String, ◌≡◌, ◌⊎◌, refl, true, false, str_eq, none, some, List, [], ◌∷◌, All, if◌then◌else◌,
}
use null.Egress.{v4, v6, quad, Resolver, any_net, is_blocked, check_addresses, check_url}
use null.Egress.Checked.{IsPublic, check_url_lem}

-- A resolver that knows one host and reads three addresses.
abbrev resolver : Resolver
resolver = record {
  scheme = λ url. "https";
  hostname = λ url. some "feeds.example";
  ip_address = λ addr.
      if str_eq addr "8.8.8.8"
      then some (v4 (quad 8 8 8 8))
      else if str_eq addr "127.0.0.1"
      then some (v4 (quad 127 0 0 1))
      else if str_eq addr "::ffff:127.0.0.1"
      then some (v6 (281470681743360 + quad 127 0 0 1))
      else none;
  getaddrinfo = λ host. some ("8.8.8.8" ∷ []);
}

check_url_lem_example :
    ((str_eq "https" "https" ≡ true) ⊎ ((str_eq "https" "http" ≡ true) × (false ≡ true)))
    × ((host : String) × (infos : List String) × (resolver.hostname "https://feeds.example/x"
          ≡ some host)
        × (resolver.getaddrinfo host ≡ some infos)
        × All (IsPublic resolver) infos)
unfolding check_url check_addresses is_blocked any_net
check_url_lem_example = check_url_lem resolver "https://feeds.example/x" false refl

loopback : is_blocked resolver "127.0.0.1" ≡ true
unfolding is_blocked any_net
loopback = refl

-- The loopback address as an IPv6 address is in no denied network.
mapped_loopback : is_blocked resolver "::ffff:127.0.0.1" ≡ false
unfolding is_blocked any_net
mapped_loopback = refl
