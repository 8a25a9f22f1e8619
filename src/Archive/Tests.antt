-- ===== src/Archive/Tests.antt =====
-- A payload in an empty file archive.
use null.Prelude.{ℕ, ◌≡◌, refl, none, [], ◌∷◌, ◌++◌, List}
use null.Text.{codes}
use null.Errors.{ok}
use null.Json.{end}
use null.Models.{RawPayload, RunContext}
use null.Archive.{ArchiveLibrary, put_file, get_file}
use null.Archive.RoundTrip.{get_file-put_file}

-- A compression that puts a mark in front.
abbrev unmarked : List ℕ → List ℕ
unmarked [] = []
unmarked (mark ∷ bytes) = bytes

abbrev library : ArchiveLibrary
library = record {
  compress = λ bytes. 31 ∷ bytes;
  decompress = unmarked;
  resolve = λ path. path;
  strftime = λ t. codes "20250101T000000Z";
  uuid_text = λ id. codes "7";
}

abbrev context : RunContext
context = record { run_id = 7; source_id = "feed"; watermark = end; raw_uri = none }

abbrev payload : RawPayload
payload = record {
  body = b'a' ∷ b'b' ∷ [];
  content_type = "text/plain";
  fetched_at = 1;
  etag = none;
  last_modified = none;
  source_url = none;
}

get_file-put_file_example :
    (get_file library
        (put_file library (codes "/raw") context payload []).0
        (put_file library (codes "/raw") context payload []).1
      ≡ ok (b'a' ∷ b'b' ∷ []))
    × (get_file library
          (codes "file://" ++ [])
          (put_file library (codes "/raw") context payload []).1
        ≡ get_file library (codes "file://" ++ []) [])
get_file-put_file_example =
    get_file-put_file library (λ bytes. refl) (codes "/raw") context payload [] ([]) (λ e. cc)
