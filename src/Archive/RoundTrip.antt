-- ===== src/Archive/RoundTrip.antt =====
-- What was put is what is got.
use null.Prelude.{
  ℕ, String, ◌≡◌, ◌≢◌, refl, sym, ap, ◌∙◌, false, Option, none, some, List, [], ◌∷◌, ◌++◌, arith,
  inl, inr, Bool-cases,
}
use null.Errors.{ok}
use null.Text.{Text, codes, text_eq, starts_with}
use null.Text.Laws.{text_eq_refl, eq_of_text_eq}
use null.Json.Str.{has_code}
use null.Models.{RawPayload, RunContext}
use null.Archive.{
  ArchiveLibrary, Blobs, read_blob, write_blob, remove_prefix, partition_slash, target, file_key,
  object_key, object_name, put_file, get_file, put_object, get_object, etag_or, tag_of, tagged_key,
  decompressed,
}

read_blob_self :
    (name : Text) (bytes : List ℕ) (blobs : Blobs)
    → read_blob name (write_blob name bytes blobs) ≡ some bytes
unfolding read_blob
read_blob_self name bytes blobs = rw (text_eq_refl name) refl

read_blob_ne :
    (name other : Text) (bytes : List ℕ) (blobs : Blobs)
    → name ≢ other
    → read_blob other (write_blob name bytes blobs) ≡ read_blob other blobs
unfolding read_blob
read_blob_ne name other bytes blobs ne = elim (Bool-cases (text_eq name other)) [
  | inl same ↦ ground (arith, ne (eq_of_text_eq name other same))
  | inr different ↦ rw different refl
]

remove_prefix-file :
    (name : Text) → remove_prefix (codes "file://") (codes "file://" ++ name) ≡ name
unfolding remove_prefix starts_with
remove_prefix-file name = refl

remove_prefix-s3 : (name : Text) → remove_prefix (codes "s3://") (codes "s3://" ++ name) ≡ name
unfolding remove_prefix starts_with
remove_prefix-s3 name = refl

partition_slash-append :
    (head tail : Text)
    → has_code b'/' head ≡ false
    → partition_slash (head ++ b'/' ∷ tail) ≡ (head, tail)
unfolding partition_slash has_code
partition_slash-append [] tail h = refl
partition_slash-append (c ∷ head) tail h = ground (arith, partition_slash-append head tail)

module _ (library : ArchiveLibrary)
    (unzips : (bytes : List ℕ) → library.decompress (library.compress bytes) ≡ bytes) where
  -- What the file archive was given is what it gives for the URI that it returned, and what it
  -- gives for another file's URI does not change.
  pub get_file-put_file :
      (root : Text) (ctx : RunContext) (payload : RawPayload) (files : Blobs) (other : Text)
      → target library root ctx payload ≢ other
      → let (uri, files') = put_file library root ctx payload files in
        (get_file library uri files' ≡ ok payload.body)
        × (get_file library (codes "file://" ++ other) files'
            ≡ get_file library (codes "file://" ++ other) files)
  unfolding put_file get_file
  get_file-put_file root ctx payload files other ne =
      let name = target library root ctx payload in
      let bytes = library.compress payload.body in
      (
        ap (λ (n : Text). decompressed library (read_blob n (write_blob name bytes files)))
              (remove_prefix-file name)
            ∙ ap (decompressed library) (read_blob_self name bytes files)
            ∙ ap (λ (b : List ℕ). ok b) (unzips payload.body),
        ap (λ (n : Text). decompressed library (read_blob n (write_blob name bytes files)))
              (remove_prefix-file other)
            ∙ ap (decompressed library) (read_blob_ne name other bytes files ne)
            ∙ ap (λ (n : Text). decompressed library (read_blob n files))
                (sym (remove_prefix-file other)),
      )

  -- The same for the object archive, if the name of its bucket has no slash: the bucket and the key
  -- are read back from the URI.
  pub get_object-put_object :
      (bucket prefix : Text) (ctx : RunContext) (payload : RawPayload) (objects : Blobs)
      → has_code b'/' bucket ≡ false
      → let (uri, objects') = put_object library bucket prefix ctx payload objects in
        get_object library uri objects' ≡ ok payload.body
  unfolding put_object get_object
  get_object-put_object bucket prefix ctx payload objects h =
      let key = object_key library prefix ctx payload in
      let name = object_name library bucket key in
      let bytes = library.compress payload.body in
      ap
        (λ (n : Text). decompressed library (
          read_blob (object_name library (partition_slash n).0 (partition_slash n).1)
            (write_blob name bytes objects)))
        (remove_prefix-s3 name)
      ∙ ap
          (λ (p : Text × Text).
            decompressed library
              (read_blob (object_name library p.0 p.1) (write_blob name bytes objects)))
          (partition_slash-append bucket key h)
      ∙ ap (decompressed library) (read_blob_self name bytes objects)
      ∙ ap (λ (b : List ℕ). ok b) (unzips payload.body)

  -- Two payloads of one run that carry no ETag and were fetched within one second have one file: the
  -- URI of the first then gives the body of the second.
  pub put_file_collides :
      (root : Text) (ctx : RunContext) (first second : RawPayload) (files : Blobs)
      → first.etag ≡ none
      → second.etag ≡ none
      → library.strftime first.fetched_at ≡ library.strftime second.fetched_at
      → let (uri, files') = put_file library root ctx first files in
        get_file library uri (put_file library root ctx second files').1 ≡ ok second.body
  unfolding put_file get_file file_key
  put_file_collides root ctx first second files plain plain' same =
      let name = target library root ctx second in
      let files' = (put_file library root ctx first files).1 in
      let tags : tag_of library first ≡ tag_of library second =
        ap (λ (e : Option String). etag_or e (library.strftime first.fetched_at)) plain
        ∙ same
        ∙ ap (λ (e : Option String). etag_or e (library.strftime second.fetched_at)) (sym plain') in
      let named : target library root ctx first ≡ name =
        ap (λ (t : Text). library.resolve (root ++ b'/' ∷ tagged_key library ctx t)) tags in
      ap
        (λ (n : Text). decompressed library (
          read_blob (remove_prefix (codes "file://") (codes "file://" ++ n))
            (write_blob name (library.compress second.body) files')))
        named
      ∙ ap
          (λ (n : Text).
            decompressed library
              (read_blob n (write_blob name (library.compress second.body) files')))
          (remove_prefix-file name)
      ∙ ap (decompressed library) (read_blob_self name (library.compress second.body) files')
      ∙ ap (λ (b : List ℕ). ok b) (unzips second.body)
