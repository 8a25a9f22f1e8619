-- ===== src/Plugins/TxtExtractor.antt =====
-- plugins/parsers/txt_extractor.py. What the patterns find in a line, the decoding, `splitlines` and
-- the ipaddress module are given by their results.
pub mod Found
use null.Prelude.{
  ℕ, Bool, true, false, ◌&&◌, ◌||◌, Option, none, some, List, [], ◌∷◌, ◌++◌, map, length, leb, ◌==◌,
  if◌then◌else◌,
}
use null.Text.{Text, codes, is_empty, text_eq, strip, starts_with}
use null.Errors.{Error, Result, ok, err, ◌>>=◌, key_error}
use null.Json.Str.{has_code}
use null.Models.{RawPayload}

pub record TxtExtractorConfig : Type 0 where
  pub extract : List Text
  pub skip_comment_prefix : Text
  pub expand_cidrs : Bool

-- An `IPv4Network`: its length, its text and the texts of its hosts.
pub record Network : Type 0 where
  pub prefixlen : ℕ
  pub text : Text
  pub hosts : List Text

pub record TxtLibrary : Type 0 where
  pub decode : List ℕ → Text
  pub splitlines : Text → List Text
  pub find_ipv4 : Text → List Text
  pub find_url : Text → List Text
  pub find_domain : Text → List Text
  pub find_hash : Text → List Text
  pub ipv4_network : Text → Option Network
  pub ipv4_address : Text → Option Text

pub record Extracted : Type 0 where
  pub type : Text
  pub value : Text
  pub raw : Text

module _ (library : TxtLibrary) where
  -- The texts for a network.
  abbrev pub expanded : Bool → Network → List Text
  expanded expand_cidrs net =
      if expand_cidrs && leb 24 net.prefixlen then net.hosts else net.text ∷ []

  abbrev pub network_texts : Bool → Option Network → List Text
  network_texts expand_cidrs none = []
  network_texts expand_cidrs (some net) = expanded expand_cidrs net

  abbrev pub address_texts : Option Text → List Text
  address_texts none = []
  address_texts (some address) = address ∷ []

  -- The texts for one match: none where ipaddress raises its `ValueError`.
  unfoldable pub token_texts : Bool → Text → List Text
  unfolding has_code
  token_texts expand_cidrs token =
      if has_code b'/' token
      then network_texts expand_cidrs (library.ipv4_network token)
      else address_texts (library.ipv4_address token)

  unfoldable pub all_texts : Bool → List Text → List Text
  unfolding token_texts
  all_texts expand_cidrs [] = []
  all_texts expand_cidrs (token ∷ tokens) =
      token_texts expand_cidrs token ++ all_texts expand_cidrs tokens

  -- `_extract_ipv4`
  unfoldable pub extract_ipv4 : Text → Bool → List Text
  unfolding all_texts
  extract_ipv4 line expand_cidrs = all_texts expand_cidrs (library.find_ipv4 line)

  abbrev pub extracted : Text → Text → Text → Extracted
  extracted line type value = record { type = type; value = value; raw = line }

  -- `{32: "md5", 40: "sha1", 64: "sha256"}[n]`
  abbrev pub hash_type : ℕ → Result Text
  hash_type n =
      if n == 32
      then ok (codes "md5")
      else if n == 40
      then ok (codes "sha1")
      else if n == 64
      then ok (codes "sha256")
      else err (record { cls = key_error; message = "" })

  unfoldable pub hash_records : Text → List Text → Result (List Extracted)
  hash_records line [] = ok []
  hash_records line (m ∷ ms) = do
    type ← hash_type (length m)
    rest ← hash_records line ms
    ok (extracted line type m ∷ rest)

  -- The branches over the kinds.
  unfoldable pub extract_kind : Bool → Text → Text → Result (List Extracted)
  unfolding text_eq extract_ipv4 hash_records
  extract_kind expand_cidrs line kind =
      if text_eq kind (codes "ipv4")
      then ok (map (extracted line (codes "ipv4")) (extract_ipv4 line expand_cidrs))
      else if text_eq kind (codes "url")
      then ok (map (extracted line (codes "url")) (library.find_url line))
      else if text_eq kind (codes "domain")
      then ok (map (extracted line (codes "domain")) (library.find_domain line))
      else if text_eq kind (codes "hash")
      then hash_records line (library.find_hash line)
      else ok []

  unfoldable pub extract_line : Bool → List Text → Text → Result (List Extracted)
  unfolding extract_kind
  extract_line expand_cidrs [] line = ok []
  extract_line expand_cidrs (kind ∷ kinds) line = do
    found ← extract_kind expand_cidrs line kind
    rest ← extract_line expand_cidrs kinds line
    ok (found ++ rest)

  abbrev pub skipped : Text → Text → Bool
  skipped prefix line = is_empty line || starts_with line prefix

  unfoldable pub extract_lines : TxtExtractorConfig → List Text → Result (List Extracted)
  unfolding extract_line strip starts_with
  extract_lines config [] = ok []
  extract_lines config (raw ∷ lines) =
      let line = strip raw in
      let rest = extract_lines config lines in
      if skipped config.skip_comment_prefix line
      then rest
      else extract_line config.expand_cidrs config.extract line >>= λ found.
          rest >>= λ more. ok (found ++ more)

  -- `TxtExtractor.parse_sync`
  unfoldable pub parse_sync : TxtExtractorConfig → RawPayload → Result (List Extracted)
  unfolding extract_lines
  parse_sync config payload =
      extract_lines config (library.splitlines (library.decode payload.body))
