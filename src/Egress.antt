-- ===== src/Egress.antt =====
-- security/egress.py: which URLs a connector may fetch.
pub mod Checked
mod Tests
use Prim.Native.Nat.{◌^◌}
use null.Prelude.{
  ℕ, ◌+◌, ◌*◌, ◌-◌, ltb, leb, String, str_eq, str_append, Bool, true, false, not, ◌&&◌, ◌||◌,
  Option, none, some, List, [], ◌∷◌, ◌++◌, if◌then◌else◌,
}
use null.Errors.{Result, ok, err, ◌>>=◌, egress_blocked}

-- `ipaddress.IPv4Address` and `IPv6Address`, by their numbers.
pub data IpAddress : Type 0 where
  v4 v6 : ℕ → IpAddress

-- A network: its first address, and the number of its addresses.
pub record IpNetwork : Type 0 where
  pub first : IpAddress
  pub size : ℕ

abbrev pub quad : ℕ → ℕ → ℕ → ℕ → ℕ
quad a b c d = ((a * 256 + b) * 256 + c) * 256 + d

abbrev pub net4 : ℕ → ℕ → ℕ → ℕ → ℕ → IpNetwork
net4 a b c d prefix = record { first = v4 (quad a b c d); size = 2 ^ (32 - prefix) }

-- An IPv6 network of which only the first 16 bits are not 0.
abbrev pub net6 : ℕ → ℕ → IpNetwork
net6 group prefix = record { first = v6 (group * 2 ^ 112); size = 2 ^ (128 - prefix) }

-- `_DENY_NETS`
abbrev pub deny_nets : List IpNetwork
deny_nets =
    net4 0 0 0 0 8
    ∷ net4 10 0 0 0 8
    ∷ net4 100 64 0 0 10
    ∷ net4 127 0 0 0 8
    ∷ net4 169 254 0 0 16
    ∷ net4 172 16 0 0 12
    ∷ net4 192 0 0 0 24
    ∷ net4 192 0 2 0 24
    ∷ net4 192 168 0 0 16
    ∷ net4 198 18 0 0 15
    ∷ net4 198 51 100 0 24
    ∷ net4 203 0 113 0 24
    ∷ net4 224 0 0 0 4
    ∷ net4 240 0 0 0 4
    ∷ record { first = v6 1; size = 1 }
    ∷ net6 64512 7
    ∷ net6 65152 10
    ∷ []

abbrev pub in_range : ℕ → ℕ → ℕ → Bool
in_range n first size = leb first n && ltb n (first + size)

-- `ip in net`: an address of the other version is in no network.
abbrev pub is_in : IpAddress → IpAddress → ℕ → Bool
is_in (v4 n) (v4 first) size = in_range n first size
is_in (v6 n) (v6 first) size = in_range n first size
is_in _ _ size = false

unfoldable pub any_net : IpAddress → List IpNetwork → Bool
any_net ip [] = false
any_net ip (net ∷ nets) = is_in ip net.first net.size || any_net ip nets

-- `urlparse`, `ipaddress.ip_address` and `getaddrinfo`: the scheme and the host of a URL, the address
-- that a text denotes, and the addresses of a host or a failure of the resolver.
pub record Resolver : Type 0 where
  pub scheme : String → String
  pub hostname : String → Option String
  pub ip_address : String → Option IpAddress
  pub getaddrinfo : String → Option (List String)

abbrev pub blocked {ℓ} : {A : Type ℓ} → String → Result A
blocked message = err (record { cls = egress_blocked; message = message })

module _ (resolver : Resolver) where
  -- `_is_blocked`: a text that is no address is not blocked.
  unfoldable pub is_blocked : String → Bool
  unfolding any_net
  is_blocked addr = elim (resolver.ip_address addr) [
    | none ↦ false
    | some ip ↦ any_net ip deny_nets
  ]

  -- The loop over the addresses.
  unfoldable pub check_addresses : List String → Result (Unit {0})
  unfolding is_blocked
  check_addresses [] = ok tt
  check_addresses (addr ∷ infos) =
      if is_blocked addr
      then blocked (str_append "blocked egress: " addr)
      else check_addresses infos

  abbrev pub check_host : Option String → Result (Unit {0})
  check_host none = blocked "missing host in URL"
  check_host (some host) =
      if str_eq host "" then blocked "missing host in URL" else elim (resolver.getaddrinfo host) [
        | none ↦ blocked (str_append "DNS failure for " host)
        | some infos ↦ check_addresses infos
      ]

  -- `check_url`
  unfoldable pub check_url : String → Bool → Result (Unit {0})
  unfolding check_addresses
  check_url url allow_http =
      if not (str_eq (resolver.scheme url) "http" || str_eq (resolver.scheme url) "https")
      then blocked (str_append "unsupported scheme: " (resolver.scheme url))
      else if str_eq (resolver.scheme url) "http" && not allow_http
      then blocked (str_append "plaintext HTTP forbidden by default: " url)
      else check_host (resolver.hostname url)
