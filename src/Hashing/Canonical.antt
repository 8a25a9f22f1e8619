-- ===== src/Hashing/Canonical.antt =====
-- What the canonical form keeps and forgets, for the types that it folds to lower case.
use null.Prelude.{
  ℕ, ◌≡◌, refl, ap, ◌∙◌, Bool, true, false, Option, none, some, [], ◌∷◌, length, arith,
}
use null.Errors.{ok}
use null.Enums.{IndicatorType, ipv4, ipv6, domain, url, sha256, sha1, md5, email}
use null.Text.{Text, is_empty, strip, lower}
use null.Text.Laws.{lower_idem}
use null.Text.Strip.{strip_idem, strip-lower}
use null.Hashing.{TextLibrary, all_hex, canonical_hash, canonical_form, canonicalize}

-- The types whose form is the text itself without its outer white space and in lower case: the
-- digests and those that `canonicalize` does not name.
abbrev pub is_folded : IndicatorType → Bool
is_folded ipv4 = false
is_folded ipv6 = false
is_folded domain = false
is_folded url = false
is_folded email = false
is_folded _ = true

abbrev pub digest_length : IndicatorType → Option ℕ
digest_length md5 = some 32
digest_length sha1 = some 40
digest_length sha256 = some 64
digest_length _ = none

empty-lower : (s : Text) → is_empty (lower s) ≡ is_empty s
unfolding lower
empty-lower [] = refl
empty-lower (c ∷ s) = refl

hash-lower : (n : ℕ) (s : Text) → canonical_hash n (lower s) ≡ canonical_hash n s
unfolding canonical_hash
hash-lower n s = rw (strip-lower s, lower_idem (strip s)) refl

hash_ok :
    (n : ℕ) (s : Text) {c : Text}
    → canonical_hash n s ≡ ok c
    → (c ≡ lower (strip s)) × (length c ≡ n) × (all_hex c ≡ true)
unfolding canonical_hash
hash_ok n s h = ground arith

module _ (library : TextLibrary) where
  form-lower :
      (t : IndicatorType) (s : Text)
      → is_folded t ≡ true
      → canonical_form library t (lower s) ≡ canonical_form library t s
  form-lower t s h = ground (arith, hash-lower 64 s, hash-lower 40 s, hash-lower 32 s, lower_idem s)

  pub canonicalize-strip :
      (t : IndicatorType) (v : Text) → canonicalize library t (strip v) ≡ canonicalize library t v
  unfolding canonicalize
  canonicalize-strip t v = rw (strip_idem v) refl

  pub canonicalize-lower :
      (t : IndicatorType) (v : Text)
      → is_folded t ≡ true
      → canonicalize library t (lower v) ≡ canonicalize library t v
  unfolding canonicalize
  canonicalize-lower t v h =
      rw (strip-lower v, empty-lower (strip v), form-lower t (strip v) h) refl

  form_ok :
      (t : IndicatorType) (v : Text) {c : Text}
      → is_folded t ≡ true
      → canonical_form library t (strip v) ≡ ok c
      → c ≡ lower (strip v)
  form_ok t v {c} h e = ground (
    arith,
    strip_idem v,
    hash_ok 64 (strip v) {c = c},
    hash_ok 40 (strip v) {c = c},
    hash_ok 32 (strip v) {c = c},
  )

  folded_form :
      (t : IndicatorType) (v : Text) {c : Text}
      → is_folded t ≡ true
      → canonicalize library t v ≡ ok c
      → c ≡ lower (strip v)
  unfolding canonicalize
  folded_form t v {c} h e = ground (arith, form_ok t v {c = c} h)

  -- A value of a folded type that has a canonical form: the form is the value without its outer
  -- white space and in lower case; it is its own canonical form; and neither the case of the value
  -- nor white space around it matters.
  pub canonicalize_folded :
      (t : IndicatorType) (v : Text) {c : Text}
      → is_folded t ≡ true
      → canonicalize library t v ≡ ok c
      → (c ≡ lower (strip v))
        × (canonicalize library t c ≡ ok c)
        × (canonicalize library t (lower v) ≡ ok c)
        × (canonicalize library t (strip v) ≡ ok c)
  canonicalize_folded t v h e =
      let folded = folded_form t v h e in
      (
        folded,
        ap (canonicalize library t) folded
            ∙ canonicalize-lower t (strip v) h
            ∙ canonicalize-strip t v
            ∙ e,
        canonicalize-lower t v h ∙ e,
        canonicalize-strip t v ∙ e,
      )

  -- The canonical form of a digest has as many code points as the type asks for, each of them a
  -- hexadecimal digit in lower case.
  pub canonicalize_digest :
      (t : IndicatorType) (v : Text) {c : Text} {n : ℕ}
      → digest_length t ≡ some n
      → canonicalize library t v ≡ ok c
      → (length c ≡ n) × (all_hex c ≡ true)
  unfolding canonicalize
  canonicalize_digest t v {c} {n} h e = ground (
    arith,
    hash_ok 64 (strip v) {c = c},
    hash_ok 40 (strip v) {c = c},
    hash_ok 32 (strip v) {c = c},
  )
