-- ===== src/Plugins/Http/Conditional.antt =====
-- How the watermark of a source moves with its responses.
use mathlib.Core.Path.{subst}
use null.Prelude.{
  ℕ, ◌<◌, ◌≤◌, String, ◌≡◌, ◌≢◌, inl, inr, refl, ap, ◌∙◌, false, Option, none, some, List, length,
  ltb, leb, ◌==◌, ◌&&◌, arith, eq_iff, Bool-cases,
}
use null.Dict.{Dict, lookup, lookup-insert_self, lookup-insert_ne}
use null.Text.{Text, codes, is_empty}
use null.Errors.{Result, ok, err}
use null.Json.{Value, Fields, end, field, get_field}
use null.Json.Str.{to_str, truth}
use null.Models.{RawPayload, RunContext}
use null.Egress.{Resolver, check_url}
use null.Plugins.Http.{
  HttpConnectorConfig, HttpLibrary, Response, Answer, answered, timeout, http_error, set_field,
  with_bearer, with_condition, request_headers, header_value, yielded, decompressed,
  handle_response, handle_answer, checked, fetch,
}

get_field-set_field : (k : String) (v : Value) (d : Fields) → get_field k (set_field k v d) ≡ some v
unfolding get_field set_field
get_field-set_field k v end = ground (arith, eq_iff k k)
get_field-set_field k v (field j w rest) = ground (arith, eq_iff j k, get_field-set_field k v rest)

get_field-set_field_ne :
    (k j : String) (v : Value) (d : Fields) → k ≢ j → get_field j (set_field k v d) ≡ get_field j d
unfolding get_field set_field
get_field-set_field_ne k j v end ne = ground (arith, eq_iff k j)
get_field-set_field_ne k j v (field i w rest) ne =
    ground (arith, eq_iff k j, eq_iff i k, eq_iff i j, get_field-set_field_ne k j v rest ne)

fields_differ : ◌≢◌ {A = String} "last_modified" "etag"
fields_differ e = ground (arith, eq_iff "last_modified" "etag")

headers_differ : ◌≢◌ {A = String} "If-Modified-Since" "If-None-Match"
headers_differ e = ground (arith, eq_iff "If-Modified-Since" "If-None-Match")

other_condition :
    (o : Option Value) (headers : Dict Text)
    → lookup "If-None-Match" (with_condition "If-Modified-Since" o headers)
      ≡ lookup "If-None-Match" headers
other_condition none headers = refl
other_condition (some v) headers = elim (Bool-cases (truth v)) [
  | inl h ↦
      rw h (lookup-insert_ne "If-Modified-Since" "If-None-Match" (to_str v) headers headers_differ)
  | inr h ↦ rw h refl
]

own_condition :
    (tag : String) (headers : Dict Text)
    → is_empty (codes tag) ≡ false
    → lookup "If-None-Match"
        (with_condition "If-None-Match" (some (header_value (some tag))) headers)
      ≡ some (codes tag)
own_condition tag headers given = rw given (lookup-insert_self "If-None-Match" (codes tag) headers)

module _ (library : HttpLibrary) (resolver : Resolver) (config : HttpConnectorConfig)
    (default_content_type : String) (now : ℕ) where
  -- How a request may end, by its answer, with the context that it leaves.
  abbrev pub Ended : RunContext → Answer → Result (Option RawPayload) × RunContext → Type 0
  Ended ctx answer (err e, ctx') = ctx' ≡ ctx
  Ended ctx (answered response) (ok none, ctx') =
      (check_url resolver config.url config.allow_http ≡ ok tt)
      × (response.status_code ≡ 304)
      × (ctx' ≡ ctx)
  Ended ctx (answered response) (ok (some p), ctx') =
      (check_url resolver config.url config.allow_http ≡ ok tt)
      × (response.status_code ≢ 304)
      × (response.status_code < 400)
      × (length response.content ≤ config.max_bytes)
      × (decompressed library resolver config default_content_type now config.decompress
            response.content
          ≡ ok p.body)
      × (p.etag ≡ response.etag)
      × (p.last_modified ≡ response.last_modified)
      × (get_field "etag" ctx'.watermark ≡ some (header_value p.etag))
      × (get_field "last_modified" ctx'.watermark ≡ some (header_value p.last_modified))
  Ended ctx timeout (ok o, ctx') = ⊥
  Ended ctx http_error (ok o, ctx') = ⊥

  yielded-Ended :
      (response : Response) (ctx : RunContext) (body : Result (List ℕ))
      → check_url resolver config.url config.allow_http ≡ ok tt
      → response.status_code ≢ 304
      → response.status_code < 400
      → length response.content ≤ config.max_bytes
      → decompressed library resolver config default_content_type now config.decompress
          response.content
        ≡ body
      → Ended ctx
          (answered response)
          (yielded library resolver config default_content_type now response ctx body)
  yielded-Ended response ctx (err e) allowed modified fine small unpacked = refl
  yielded-Ended response ctx (ok body) allowed modified fine small unpacked = (
    allowed,
    modified,
    fine,
    small,
    unpacked,
    refl,
    refl,
    get_field-set_field_ne "last_modified" "etag" (header_value response.last_modified)
          (set_field "etag" (header_value response.etag) ctx.watermark) fields_differ
        ∙ get_field-set_field "etag" (header_value response.etag) ctx.watermark,
    get_field-set_field "last_modified" (header_value response.last_modified)
        (set_field "etag" (header_value response.etag) ctx.watermark),
  )

  handle_response-Ended :
      (response : Response) (ctx : RunContext)
      → check_url resolver config.url config.allow_http ≡ ok tt
      → Ended ctx
          (answered response)
          (handle_response library resolver config default_content_type now response ctx)
  unfolding handle_response
  handle_response-Ended response ctx allowed =
      let status = response.status_code in
      elim (Bool-cases (status == 304)) [
        | inl h ↦ rw h (allowed, ground (arith, h), refl)
        | inr unmodified ↦ rw unmodified (elim (Bool-cases (status == 429)) [
          | inl h ↦ rw h refl
          | inr limited ↦ rw limited (elim (Bool-cases (leb 500 status && ltb status 600)) [
            | inl h ↦ rw h refl
            | inr upstream ↦ rw upstream (elim (Bool-cases (leb 400 status)) [
              | inl h ↦ rw h refl
              | inr client ↦
                  rw client (elim (Bool-cases (ltb config.max_bytes (length response.content))) [
                    | inl h ↦ rw h refl
                    | inr small ↦ rw small (
                        yielded-Ended response ctx
                          (decompressed library resolver config default_content_type now
                            config.decompress response.content)
                          allowed (λ e. ground (arith, unmodified, e)) (ground (arith, client))
                          (ground (arith, small)) refl)
                  ])
            ])
          ])
        ])
      ]

  handle_answer-Ended :
      (answer : Answer) (ctx : RunContext)
      → check_url resolver config.url config.allow_http ≡ ok tt
      → Ended ctx answer (handle_answer library resolver config default_content_type now answer ctx)
  handle_answer-Ended (answered response) ctx allowed = handle_response-Ended response ctx allowed
  handle_answer-Ended timeout ctx allowed = refl
  handle_answer-Ended http_error ctx allowed = refl

  checked-Ended :
      (r : Result (Unit {0})) (ctx : RunContext)
      → check_url resolver config.url config.allow_http ≡ r
      → Ended ctx
          (library.request (request_headers config ctx.watermark))
          (checked library resolver config default_content_type now r ctx)
  checked-Ended (err e) ctx is = refl
  checked-Ended (ok _) ctx is =
      handle_answer-Ended (library.request (request_headers config ctx.watermark)) ctx is

  pub fetch-Ended :
      (ctx : RunContext)
      → Ended ctx
          (library.request (request_headers config ctx.watermark))
          (fetch library resolver config default_content_type now ctx)
  unfolding fetch
  fetch-Ended ctx = checked-Ended (check_url resolver config.url config.allow_http) ctx refl

  -- The tag in the watermark behind a payload.
  Ended-etag :
      (ctx ctx' : RunContext) (answer : Answer) (p : RawPayload)
      → Ended ctx answer (ok (some p), ctx')
      → get_field "etag" ctx'.watermark ≡ some (header_value p.etag)
  Ended-etag ctx ctx' (answered response) p h = h.7
  Ended-etag ctx ctx' timeout p h = elim h [ ]
  Ended-etag ctx ctx' http_error p h = elim h [ ]

  -- After a payload with an ETag that is not empty the next request asks with that ETag, whatever
  -- the other headers are.
  pub fetch-conditional :
      (ctx ctx' : RunContext) (p : RawPayload) (tag : String)
      → fetch library resolver config default_content_type now ctx ≡ (ok (some p), ctx')
      → p.etag ≡ some tag
      → is_empty (codes tag) ≡ false
      → lookup "If-None-Match" (request_headers config ctx'.watermark) ≡ some (codes tag)
  unfolding request_headers
  fetch-conditional ctx ctx' p tag e tagged given =
      let answer = library.request (request_headers config ctx.watermark) in
      let has_tag = Ended-etag ctx ctx' answer p (subst (Ended ctx answer) e (fetch-Ended ctx)) in
      let w = ctx'.watermark in
      other_condition (get_field "last_modified" w) _
      ∙ ap
          (λ (o : Option Value).
            lookup "If-None-Match"
              (with_condition "If-None-Match" o (with_bearer config.auth_bearer config.headers)))
          (has_tag ∙ ap (λ (t : Option String). some (header_value t)) tagged)
      ∙ own_condition tag (with_bearer config.auth_bearer config.headers) given
