-- ===== src/Hashing.antt =====
-- core/hashing.py: the canonical form of a value, and the identifier made from it.
pub mod Canonical
use null.Prelude.{
  ℕ, zero, suc, String, Bool, true, false, not, ◌&&◌, ◌||◌, Option, none, some, List, [], ◌∷◌, ◌++◌,
  length, take, drop, leb, ◌==◌, if◌then◌else◌,
}
use null.Errors.{Result, ok, err, ◌>>=◌, value_error}
use null.Enums.{IndicatorType, ipv4, ipv6, domain, url, sha256, sha1, md5, email, type_value}
use null.Text.{
  Text, codes, is_empty, strip, lower, replace, drop_while_end, split, starts_with, text_eq,
}

-- The five texts of a parsed URL and its fragment, as `urlparse` gives them.
pub record ParsedUrl : Type 0 where
  pub scheme : Text
  pub netloc : Text
  pub path : Text
  pub params : Text
  pub query : Text

-- What the module calls of `ipaddress`, `urllib.parse` and `uuid`: the printed form of a parsed
-- address, `urlparse` and `urlunparse` without a fragment, and `uuid5` in the namespace `_CTI_NS`.
pub record TextLibrary : Type 0 where
  pub ipv4_address : Text → Result Text
  pub ipv6_address : Text → Result Text
  pub urlparse : Text → Result ParsedUrl
  pub urlunparse : ParsedUrl → Text
  pub uuid5 : Text → ℕ

abbrev pub refuse {ℓ} : {A : Type ℓ} → String → Result A
refuse message = err (record { cls = value_error; message = message })

-- `\w`
abbrev pub is_word : ℕ → Bool
is_word c =
    (leb b'0' c && leb c b'9')
    || (leb b'A' c && leb c b'Z')
    || (leb b'a' c && leb c b'z')
    || (c == b'_')

-- `_RE_HXXP.sub`: `hxxp://` and `hxxps://` in any case, where the text before does not end in a
-- word. The arguments: whether it does, and how many code points to skip.
unfoldable pub hxxp_from : Bool → ℕ → Text → Text
unfolding starts_with lower
hxxp_from word n [] = []
hxxp_from word (suc n) (c ∷ s) = hxxp_from false n s
hxxp_from word zero (c ∷ s) = elim (not word && starts_with (lower (c ∷ s)) (codes "hxxp://")) [
  | true ↦ codes "http://" ++ hxxp_from false 6 s
  | false ↦ elim (not word && starts_with (lower (c ∷ s)) (codes "hxxps://")) [
    | true ↦ codes "http" ++ take 1 (drop 4 (c ∷ s)) ++ codes "://" ++ hxxp_from false 7 s
    | false ↦ c ∷ hxxp_from (is_word c) 0 s
  ]
]

-- `_refang`
unfoldable pub refang : Text → Text
unfolding hxxp_from replace
refang value =
    let a = replace (codes "[.]") (codes ".") value in
    let b = replace (codes "(.)") (codes ".") a in
    let c = replace (codes "[:]") (codes ":") b in
    let d = replace (codes "[at]") (codes "@") c in
    hxxp_from false 0 (replace (codes "[://]") (codes "://") d)

abbrev pub is_alnum : ℕ → Bool
is_alnum c = (leb b'0' c && leb c b'9') || (leb b'A' c && leb c b'Z') || (leb b'a' c && leb c b'z')

-- What stands behind the first code point of a label: code points and hyphens, then one that is no
-- hyphen.
unfoldable pub label_tail : Text → Bool
label_tail [] = false
label_tail (c ∷ s) = if is_empty s then is_alnum c else (is_alnum c || (c == b'-')) && label_tail s

abbrev pub label_rest : Text → Bool
label_rest s = is_empty s || (leb (length s) 62 && label_tail s)

-- The `$` of the pattern stands before the end, or before a last line feed.
unfoldable pub drop_line_feed : Text → Text
drop_line_feed [] = []
drop_line_feed (c ∷ s) = if is_empty s && (c == 10) then [] else c ∷ drop_line_feed s

-- `_DOMAIN_LABEL_RE.match`
unfoldable pub label_matches : Text → Bool
unfolding drop_line_feed label_tail
label_matches [] = false
label_matches (c ∷ s) = is_alnum c && label_rest (drop_line_feed s)

-- `domain.encode("idna")` on ASCII, as its result or a `UnicodeError`: no label but the last is empty,
-- and none is longer than 63.
abbrev pub idna_labels : List Text → Bool
idna_labels [] = true
idna_labels (t ∷ []) = leb (length t) 63
idna_labels (t ∷ u ∷ ts) = not (is_empty t) && leb (length t) 63 && idna_labels (u ∷ ts)

abbrev pub all_match : List Text → Bool
all_match [] = true
all_match (t ∷ ts) = label_matches t && all_match ts

-- `_canonical_domain`
unfoldable pub canonical_domain : Text → Result Text
unfolding refang lower drop_while_end split label_matches
canonical_domain value =
    let name = drop_while_end (λ c. c == b'.') (lower (refang value)) in
    if is_empty name || idna_labels (split b'.' name)
    then if all_match (split b'.' name) then ok name else refuse "invalid domain label"
    else refuse "invalid IDN domain"

unfoldable pub ends_with : Text → Text → Bool
unfolding text_eq
ends_with [] t = is_empty t
ends_with (c ∷ s) t = text_eq (c ∷ s) t || ends_with s t

-- The text before the last `c`, and the text behind it: `s.rpartition(c)` where `c` occurs.
unfoldable pub rpartition : ℕ → Text → Option (Text × Text)
rpartition sep [] = none
rpartition sep (c ∷ s) = elim (rpartition sep s) [
  | some (before, after) ↦ some (c ∷ before, after)
  | none ↦ if c == sep then some ([], s) else none
]

-- `s.rsplit(c, 1)[0]`
abbrev pub before_last : ℕ → Text → Text
before_last sep s = elim (rpartition sep s) [ none ↦ s | some (before, _) ↦ before ]

-- The port is left out where it is the scheme's own.
unfoldable pub without_port : Text → Text → Text
unfolding text_eq ends_with rpartition
without_port scheme netloc =
    if (text_eq scheme (codes "http") && ends_with netloc (codes ":80"))
      || (text_eq scheme (codes "https") && ends_with netloc (codes ":443"))
    then before_last b':' netloc
    else netloc

abbrev pub is_hex : ℕ → Bool
is_hex c = (leb b'0' c && leb c b'9') || (leb b'a' c && leb c b'f')

unfoldable pub all_hex : Text → Bool
all_hex [] = true
all_hex (c ∷ s) = is_hex c && all_hex s

-- `_canonical_hash`
unfoldable pub canonical_hash : ℕ → Text → Result Text
unfolding strip lower all_hex
canonical_hash expected value =
    let cleaned = lower (strip value) in
    if not (length cleaned == expected) || not (all_hex cleaned)
    then refuse "invalid hash"
    else ok cleaned

-- `_canonical_email`
unfoldable pub canonical_email : Text → Result Text
unfolding rpartition canonical_domain lower
canonical_email value = elim (rpartition b'@' value) [
  | none ↦ refuse "invalid email"
  | some (local, host) ↦ (do d ← canonical_domain host; ok (lower (local ++ b'@' ∷ d)))
]

module _ (library : TextLibrary) where
  -- `_canonical_url`
  unfoldable pub canonical_url : Text → Result Text
  unfolding refang strip lower without_port
  canonical_url value = do
    parsed ← library.urlparse (strip (refang value))
    (if is_empty parsed.scheme || is_empty parsed.netloc
        then refuse "invalid URL"
        else let scheme = lower parsed.scheme in
          ok (
            library.urlunparse (record {
              scheme = scheme;
              netloc = without_port scheme (lower parsed.netloc);
              path = if is_empty parsed.path then codes "/" else parsed.path;
              params = parsed.params;
              query = parsed.query;
            })))

  -- The branches of `canonicalize` on a text that is not empty.
  abbrev pub canonical_form : IndicatorType → Text → Result Text
  canonical_form ipv4 raw = library.ipv4_address raw
  canonical_form ipv6 raw = library.ipv6_address raw
  canonical_form domain raw = canonical_domain raw
  canonical_form url raw = canonical_url raw
  canonical_form sha256 raw = canonical_hash 64 raw
  canonical_form sha1 raw = canonical_hash 40 raw
  canonical_form md5 raw = canonical_hash 32 raw
  canonical_form email raw = canonical_email raw
  canonical_form _ raw = ok (lower raw)

  -- `canonicalize`
  unfoldable pub canonicalize : IndicatorType → Text → Result Text
  unfolding strip lower canonical_domain canonical_url canonical_hash canonical_email
  canonicalize type value =
      let raw = strip value in
      if is_empty raw then refuse "empty indicator value" else canonical_form type raw

  -- `indicator_uuid`
  unfoldable pub indicator_uuid : IndicatorType → Text → Result ℕ
  unfolding canonicalize type_value
  indicator_uuid type value = do
    canonical ← canonicalize type value
    ok (library.uuid5 (type_value type ++ b':' ∷ canonical))
