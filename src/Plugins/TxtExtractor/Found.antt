-- ===== src/Plugins/TxtExtractor/Found.antt =====
-- What the extractor yields.
use null.Prelude.{
  ℕ, zero, suc, ◌-◌, ◌*◌, ◌≤◌, ◌≡◌, refl, Bool, ◌&&◌, Option, none, some, List, [], ◌∷◌, length,
  length-append, arith, leb, leb→le, inl, inr, Bool-cases,
}
use Prim.Native.Nat.{◌^◌}
use null.Text.{Text}
use null.Json.Str.{has_code}
use null.Plugins.TxtExtractor.{
  TxtLibrary, Network, expanded, network_texts, address_texts, token_texts, all_texts, extract_ipv4,
}

power_le : (n : ℕ) → n ≤ 8 → 2 ^ n ≤ 256
power_le zero h = omega arith
power_le (suc zero) h = omega arith
power_le (suc (suc zero)) h = omega arith
power_le (suc (suc (suc zero))) h = omega arith
power_le (suc (suc (suc (suc zero)))) h = omega arith
power_le (suc (suc (suc (suc (suc zero))))) h = omega arith
power_le (suc (suc (suc (suc (suc (suc zero)))))) h = omega arith
power_le (suc (suc (suc (suc (suc (suc (suc zero))))))) h = omega arith
power_le (suc (suc (suc (suc (suc (suc (suc (suc zero)))))))) h = omega arith
power_le (suc (suc (suc (suc (suc (suc (suc (suc (suc n))))))))) h = omega arith

expanded_le :
    (library : TxtLibrary) (expand_cidrs : Bool) (net : Network)
    → length net.hosts ≤ 2 ^ (32 - net.prefixlen)
    → length (expanded library expand_cidrs net) ≤ 256
expanded_le library expand_cidrs net few =
    elim (Bool-cases (expand_cidrs && leb 24 net.prefixlen)) [
      | inl long ↦ rw long (
          omega (
            arith,
            few,
            power_le (32 - net.prefixlen)
                (omega (arith, leb→le 24 net.prefixlen (ground (arith, long)))),
          ))
      | inr short ↦ rw short (omega arith)
    ]

network_texts_le :
    (library : TxtLibrary) (expand_cidrs : Bool) (net : Option Network)
    → ((n : Network) → net ≡ some n → length n.hosts ≤ 2 ^ (32 - n.prefixlen))
    → length (network_texts library expand_cidrs net) ≤ 256
network_texts_le library expand_cidrs none few = omega arith
network_texts_le library expand_cidrs (some n) few = expanded_le library expand_cidrs n (few n refl)

address_texts_le :
    (library : TxtLibrary) (address : Option Text) → length (address_texts library address) ≤ 256
address_texts_le library none = omega arith
address_texts_le library (some a) = omega arith

module _ (library : TxtLibrary)
    (few_hosts : (token : Text) (net : Network)
      → library.ipv4_network token ≡ some net
      → length net.hosts ≤ 2 ^ (32 - net.prefixlen)) where
  token_texts_le :
      (expand_cidrs : Bool) (token : Text) → length (token_texts library expand_cidrs token) ≤ 256
  unfolding token_texts
  token_texts_le expand_cidrs token = elim (Bool-cases (has_code b'/' token)) [
    | inl net ↦
        rw (net, token_texts)
          (network_texts_le library expand_cidrs (library.ipv4_network token) (few_hosts token))
    | inr single ↦ rw (single, token_texts) (address_texts_le library (library.ipv4_address token))
  ]

  all_texts_le :
      (expand_cidrs : Bool) (tokens : List Text)
      → length (all_texts library expand_cidrs tokens) ≤ 256 * length tokens
  unfolding all_texts
  all_texts_le expand_cidrs [] = omega arith
  all_texts_le expand_cidrs (token ∷ tokens) = omega (
    arith,
    token_texts_le expand_cidrs token,
    all_texts_le expand_cidrs tokens,
    length-append (token_texts library expand_cidrs token) (all_texts library expand_cidrs tokens),
  )

  -- However long the networks in a line are, each address or network that the pattern finds there
  -- yields at most 256 texts: only networks of 24 bits or more are expanded. This uses of the
  -- ipaddress module that a network has at most two to the power of its free bits hosts.
  pub extract_ipv4_le :
      (line : Text) (expand_cidrs : Bool)
      → length (extract_ipv4 library line expand_cidrs) ≤ 256 * length (library.find_ipv4 line)
  unfolding extract_ipv4
  extract_ipv4_le line expand_cidrs = all_texts_le expand_cidrs (library.find_ipv4 line)
