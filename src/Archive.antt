-- ===== src/Archive.antt =====
-- security/archive.py: the stores of raw payloads. `gzip`, `resolve`, `strftime` and `str` of a UUID
-- are parameters; files and objects are the bytes last written under a name.
pub mod RoundTrip
mod Tests
use null.Prelude.{
  ℕ, String, Bool, true, false, Option, none, some, List, [], ◌∷◌, ◌++◌, length, drop, ◌==◌,
  if◌then◌else◌,
}
use null.Errors.{Error, Result, ok, err, ErrorClass, other_error}
use null.Text.{Text, codes, text_eq, starts_with, drop_while, drop_while_end, replace}
use null.Models.{RawPayload, RunContext}

pub record ArchiveLibrary : Type 0 where
  pub compress : List ℕ → List ℕ
  pub decompress : List ℕ → List ℕ
  pub resolve : Text → Text
  pub strftime : ℕ → Text
  pub uuid_text : ℕ → Text

-- The bytes by name, the last that were written first.
abbrev pub Blobs : Type 0
Blobs = List (Text × List ℕ)

unfoldable pub read_blob : Text → Blobs → Option (List ℕ)
unfolding text_eq
read_blob name [] = none
read_blob name ((n, bytes) ∷ blobs) = if text_eq n name then some bytes else read_blob name blobs

abbrev pub write_blob : Text → List ℕ → Blobs → Blobs
write_blob name bytes blobs = (name, bytes) ∷ blobs

-- `payload.etag or …`
abbrev pub etag_or : Option String → Text → Text
etag_or none default = default
etag_or (some etag) default = elim (codes etag) [ [] ↦ default | c ∷ s ↦ c ∷ s ]

-- `s.strip('"')`
abbrev pub strip_quotes : Text → Text
strip_quotes s = drop_while_end (λ c. c == 34) (drop_while (λ c. c == 34) s)

-- `s.removeprefix(p)`
unfoldable pub remove_prefix : Text → Text → Text
unfolding starts_with
remove_prefix prefix s = if starts_with s prefix then drop (length prefix) s else s

-- `s.partition("/")`, without the separator.
unfoldable pub partition_slash : Text → Text × Text
partition_slash [] = ([], [])
partition_slash (c ∷ s) =
    let (head, tail) = partition_slash s in if c == b'/' then ([], s) else (c ∷ head, tail)

abbrev pub missing : Error
missing = record { cls = other_error; message = "no such file" }

module _ (library : ArchiveLibrary) where
  open library use {compress, decompress, resolve, strftime, uuid_text}

  -- The key, given the ETag or the time.
  unfoldable pub tagged_key : RunContext → Text → Text
  unfolding drop_while drop_while_end replace
  tagged_key ctx tag =
      codes ctx.source_id
      ++ b'/'
        ∷ (uuid_text ctx.run_id
            ++ b'/' ∷ (replace (codes "/") (codes "_") (strip_quotes tag) ++ codes ".bin.gz"))

  abbrev pub tag_of : RawPayload → Text
  tag_of payload = etag_or payload.etag (strftime payload.fetched_at)

  -- `FilesystemArchive._key`
  unfoldable pub file_key : RunContext → RawPayload → Text
  unfolding tagged_key
  file_key ctx payload = tagged_key ctx (tag_of payload)

  -- `self.root / rel`, as the file that it leads to.
  abbrev pub target : Text → RunContext → RawPayload → Text
  target root ctx payload = resolve (root ++ b'/' ∷ file_key ctx payload)

  -- `FilesystemArchive.put`: the URI, and the files.
  unfoldable pub put_file : Text → RunContext → RawPayload → Blobs → Text × Blobs
  unfolding file_key
  put_file root ctx payload files =
      let name = target root ctx payload in
      (codes "file://" ++ name, write_blob name (compress payload.body) files)

  abbrev pub decompressed : Option (List ℕ) → Result (List ℕ)
  decompressed none = err missing
  decompressed (some bytes) = ok (decompress bytes)

  -- `FilesystemArchive.get`
  unfoldable pub get_file : Text → Blobs → Result (List ℕ)
  unfolding remove_prefix read_blob
  get_file uri files = decompressed (read_blob (remove_prefix (codes "file://") uri) files)

  -- The key of `S3Archive.put`.
  unfoldable pub object_key : Text → RunContext → RawPayload → Text
  object_key prefix ctx payload =
      prefix
      ++ b'/'
        ∷ (codes ctx.source_id
            ++ b'/'
              ∷ (uuid_text ctx.run_id
                  ++ b'/'
                    ∷ (etag_or payload.etag (strftime payload.fetched_at) ++ codes ".bin.gz")))

  -- An object's name here is its bucket and its key.
  abbrev pub object_name : Text → Text → Text
  object_name bucket key = bucket ++ b'/' ∷ key

  -- `S3Archive.put`
  unfoldable pub put_object : Text → Text → RunContext → RawPayload → Blobs → Text × Blobs
  unfolding object_key
  put_object bucket prefix ctx payload objects =
      let name = object_name bucket (object_key prefix ctx payload) in
      (codes "s3://" ++ name, write_blob name (compress payload.body) objects)

  -- `S3Archive.get`
  unfoldable pub get_object : Text → Blobs → Result (List ℕ)
  unfolding remove_prefix partition_slash read_blob
  get_object uri objects =
      let (bucket, key) = partition_slash (remove_prefix (codes "s3://") uri) in
      decompressed (read_blob (object_name bucket key) objects)
