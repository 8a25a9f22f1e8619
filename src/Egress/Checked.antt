-- ===== src/Egress/Checked.antt =====
-- What is known of a URL that passed the check.
use null.Prelude.{
  ℕ, ◌+◌, ◌≤◌, ◌<◌, String, str_eq, ◌≡◌, ◌⊎◌, inl, inr, refl, Bool, true, false, Option, none, some,
  List, [], ◌∷◌, All, arith, Bool-cases, Option-cases,
}
use null.Errors.{ok}
use null.Egress.{
  IpAddress, v4, v6, IpNetwork, deny_nets, is_in, any_net, Resolver, is_blocked, check_addresses,
  check_host, check_url,
}

-- The address is not in the network; of two versions, no address is in a network of the other.
abbrev pub Outside : IpAddress → IpAddress → ℕ → Type 0
Outside (v4 n) (v4 first) size = (n < first) ⊎ (first + size ≤ n)
Outside (v6 n) (v6 first) size = (n < first) ⊎ (first + size ≤ n)
Outside _ _ size = Unit

is_in-Outside :
    (ip first : IpAddress) (size : ℕ) → is_in ip first size ≡ false → Outside ip first size
is_in-Outside (v4 n) (v4 first) size h = ground arith
is_in-Outside (v4 n) (v6 first) size h = tt
is_in-Outside (v6 n) (v4 first) size h = tt
is_in-Outside (v6 n) (v6 first) size h = ground arith

any_net-Outside :
    (ip : IpAddress) (nets : List IpNetwork)
    → any_net ip nets ≡ false
    → All (λ net. Outside ip net.first net.size) nets
unfolding any_net
any_net-Outside ip [] h = tt
any_net-Outside ip (net ∷ nets) h =
    (is_in-Outside ip net.first net.size (ground arith), any_net-Outside ip nets (ground arith))

-- An address that is in none of the denied networks; a text that is no address is let through.
abbrev pub IsAllowed : Option IpAddress → Type 0
IsAllowed none = Unit
IsAllowed (some ip) = All (λ net. Outside ip net.first net.size) deny_nets

module _ (resolver : Resolver) where
  -- What a text denotes is in none of the denied networks.
  abbrev pub IsPublic : String → Type 0
  IsPublic addr = IsAllowed (resolver.ip_address addr)

  not_blocked : (addr : String) → is_blocked resolver addr ≡ false → IsPublic addr
  unfolding is_blocked
  not_blocked addr h = elim (Option-cases (resolver.ip_address addr)) [
    | inl unread ↦ rw unread tt
    | inr (ip, read) ↦ rw read (any_net-Outside ip deny_nets (ground (arith, read)))
  ]

  checked_addresses :
      (infos : List String) → check_addresses resolver infos ≡ ok tt → All IsPublic infos
  unfolding check_addresses
  checked_addresses [] h = tt
  checked_addresses (addr ∷ infos) h =
      (not_blocked addr (ground arith), checked_addresses infos (ground arith))

  checked_host :
      (o : Option String)
      → check_host resolver o ≡ ok tt
      → (host : String) × (infos : List String) × (o ≡ some host)
        × (resolver.getaddrinfo host ≡ some infos)
        × All IsPublic infos
  checked_host none h = cc
  checked_host (some host) h = elim (Option-cases (resolver.getaddrinfo host)) [
    | inl unknown ↦ absurd (ground (arith, unknown))
    | inr (infos, known) ↦
        (host, infos, refl, known, checked_addresses infos (ground (arith, known)))
  ]

  passed_scheme :
      (url : String) (allow_http : Bool)
      → check_url resolver url allow_http ≡ ok tt
      → ((str_eq (resolver.scheme url) "https" ≡ true)
          ⊎ ((str_eq (resolver.scheme url) "http" ≡ true) × (allow_http ≡ true)))
        × (check_host resolver (resolver.hostname url) ≡ ok tt)
  unfolding check_url
  passed_scheme url allow_http h = elim (Bool-cases (str_eq (resolver.scheme url) "https")) [
    | inl https ↦ (inl https, ground (arith, https))
    | inr other ↦ (inr (ground (arith, other), ground (arith, other)), ground (arith, other))
  ]

  -- A URL that passes has the scheme HTTPS, or HTTP where that is allowed; it has a host; the
  -- resolver knows the host; and every address of the host is outside of all networks that are denied.
  pub check_url_lem :
      (url : String) (allow_http : Bool)
      → check_url resolver url allow_http ≡ ok tt
      → ((str_eq (resolver.scheme url) "https" ≡ true)
          ⊎ ((str_eq (resolver.scheme url) "http" ≡ true) × (allow_http ≡ true)))
        × ((host : String) × (infos : List String) × (resolver.hostname url ≡ some host)
            × (resolver.getaddrinfo host ≡ some infos)
            × All IsPublic infos)
  check_url_lem url allow_http h =
      let (scheme, host_ok) = passed_scheme url allow_http h in
      let (host, infos, named, resolved, public) = checked_host (resolver.hostname url) host_ok in
      (scheme, (host, infos, named, resolved, public))
