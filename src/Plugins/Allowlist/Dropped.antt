-- ===== src/Plugins/Allowlist/Dropped.antt =====
-- Which domains the allowlist drops.
use null.Prelude.{◌≡◌, refl, ap, ◌∙◌, true, ◌⊎◌, inl, inr, none, List, [], ◌∷◌, ◌++◌, arith}
use null.Text.{Text, lower, to_lower}
use null.Text.Laws.{text_eq_refl}
use null.Enums.{domain}
use null.Models.{Indicator}
use null.Hashing.{ends_with}
use null.Plugins.Allowlist.{AllowlistConfig, IpParser, is_below, in_domains, enrich_sync}

ends_with-append : (s t : Text) → ends_with (s ++ t) t ≡ true
unfolding ends_with
ends_with-append [] [] = refl
ends_with-append [] (c ∷ t) = ground (arith, text_eq_refl (c ∷ t))
ends_with-append (c ∷ s) t = ground (arith, ends_with-append s t)

lower-append : (s t : Text) → lower (s ++ t) ≡ lower s ++ lower t
unfolding lower
lower-append [] t = refl
lower-append (c ∷ s) t = ap (λ (r : Text). to_lower c ∷ r) (lower-append s t)

-- Membership by recursion.
abbrev pub IsAmong : Text → List Text → Type 0
IsAmong d [] = ⊥
IsAmong d (e ∷ ds) = (d ≡ e) ⊎ IsAmong d ds

in_domains-below :
    (v d : Text) (ds : List Text)
    → IsAmong d ds
    → is_below v (lower d) ≡ true
    → in_domains v ds ≡ true
unfolding in_domains
in_domains-below v d [] among below = absurd among
in_domains-below v d (e ∷ ds) (inl same) below = ground (arith, rw same at below)
in_domains-below v d (e ∷ ds) (inr among) below =
    ground (arith, in_domains-below v d ds among below)

lower-dot : (d : Text) → lower (b'.' ∷ d) ≡ b'.' ∷ lower d
unfolding lower to_lower
lower-dot d = refl

below_dot : (v prefix d : Text) → v ≡ lower (prefix ++ b'.' ∷ d) → is_below v (lower d) ≡ true
below_dot v prefix d named =
    let dotted =
      named ∙ lower-append prefix (b'.' ∷ d) ∙ ap (λ (t : Text). lower prefix ++ t) (lower-dot d) in
    let ends =
      ap (λ (w : Text). ends_with w (b'.' ∷ lower d)) dotted
      ∙ ends_with-append (lower prefix) (b'.' ∷ lower d) in
    ground (arith, ends)

-- Every subdomain of a listed domain is dropped, however the two are written in upper and lower
-- case.
pub enrich_sync-subdomain :
    (config : AllowlistConfig) (parse : IpParser) (ind : Indicator) (prefix d : Text)
    → ind.type ≡ domain
    → lower ind.value ≡ lower (prefix ++ b'.' ∷ d)
    → IsAmong d config.domains
    → enrich_sync config parse ind ≡ none
unfolding enrich_sync
enrich_sync-subdomain config parse ind prefix d typed named among =
    let listed =
      in_domains-below (lower ind.value) d config.domains among
        (below_dot (lower ind.value) prefix d named) in
    ground (arith, typed, listed)
