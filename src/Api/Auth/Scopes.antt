-- ===== src/Api/Auth/Scopes.antt =====
-- Who is authenticated, and with which scopes.
use mathlib.Core.List.{Memᴰ}
use mathlib.Core.Path.{subst}
use null.Prelude.{
  ◌≡◌, refl, sym, ap, ◌∙◌, ◌&&◌, String, eq_iff, true, inl, inr, Option, none, some, List, [], ◌∷◌,
  drop, All, All-imply, arith, Bool-cases, Option-cases,
}
use null.Errors.{ok}
use null.Text.{codes, Text, text_eq, lower, starts_with, strip}
use null.Text.Laws.{eq_of_text_eq}
use null.Api.Auth.{
  or_else, scope_in, only_valid, Principal, TokenStore, TokenEntry, principal_of, set_token,
  find_token, load_tokens, load_store, authenticate, bearer,
}

-- An entry of the file that gives the token to the principal.
abbrev Grants : List TokenEntry → Text → Principal → Type 0
Grants entries token principal =
    (entry : TokenEntry) × Memᴰ entry entries
    × (entry.token ≡ some token)
    × (principal ≡ principal_of entry)

module _ (entries : List TokenEntry) where
  AllGranted : TokenStore → Type 0
  AllGranted tokens = All (λ (e : Text × Principal). Grants entries e.0 e.1) tokens

  set_token-AllGranted :
      (token : Text) (principal : Principal) (tokens : TokenStore)
      → Grants entries token principal
      → AllGranted tokens
      → AllGranted (set_token token principal tokens)
  unfolding set_token AllGranted
  set_token-AllGranted token principal [] h hs = (h, tt)
  set_token-AllGranted token principal ((t, p) ∷ tokens) h hs =
      elim (Bool-cases (text_eq t token)) [
        | inl same ↦
            rw same
              (subst (λ s. Grants entries s principal) (sym (eq_of_text_eq t token same)) h, hs.1)
        | inr other ↦ rw other (hs.0, set_token-AllGranted token principal tokens h hs.1)
      ]

  load_tokens-next :
      (entry : TokenEntry) (rest : List TokenEntry) (out tokens : TokenStore)
      → load_tokens (entry ∷ rest) out ≡ ok tokens
      → (token : Text) × (entry.token ≡ some token)
        × (load_tokens rest (set_token token (principal_of entry) out) ≡ ok tokens)
  unfolding load_tokens
  load_tokens-next entry rest out tokens e = elim (Option-cases entry.token) [
    | inl missing ↦ cc (missing, e)
    | inr (token, given) ↦ (token, given, ground (arith, given, e))
  ]

  load_tokens-AllGranted :
      (rest : List TokenEntry) (out tokens : TokenStore)
      → All (λ entry. Memᴰ entry entries) rest
      → AllGranted out
      → load_tokens rest out ≡ ok tokens
      → AllGranted tokens
  unfolding load_tokens
  load_tokens-AllGranted [] out tokens among h e = subst AllGranted (ground arith) h
  load_tokens-AllGranted (entry ∷ rest) out tokens among h e =
      let (token, given, more) = load_tokens-next entry rest out tokens e in
      load_tokens-AllGranted rest (set_token token (principal_of entry) out) tokens among.1
        (set_token-AllGranted token (principal_of entry) out (entry, among.0, given, refl) h) more

  find_token-granted :
      (token : Text) (tokens : TokenStore) (principal : Principal)
      → AllGranted tokens
      → find_token token tokens ≡ some principal
      → Grants entries token principal
  unfolding find_token AllGranted
  find_token-granted token [] principal h e = cc
  find_token-granted token ((t, p) ∷ tokens) principal h e = elim (Bool-cases (text_eq t token)) [
    | inl same ↦
        let found : p ≡ principal = ground (arith, same, e) in
        subst (λ s. Grants entries s principal) (eq_of_text_eq t token same)
          (subst (Grants entries t) found h.0)
    | inr other ↦ find_token-granted token tokens principal h.1 (ground (arith, other, e))
  ]

each_among : (entries : List TokenEntry) → All (λ entry. Memᴰ entry entries) entries
each_among [] = tt
each_among (entry ∷ entries) = (
  Memᴰ.head refl,
  All-imply {P = λ e. Memᴰ e entries} entries (λ e m. Memᴰ.tail m) (each_among entries),
)

-- The scopes of an entry, with none where it has no such key.
abbrev pub listed_scopes : TokenEntry → List String
listed_scopes entry = elim entry.scopes [ none ↦ [] | some scopes ↦ scopes ]

listed_scopes-or_else : (entry : TokenEntry) → listed_scopes entry ≡ or_else [] entry.scopes
listed_scopes-or_else entry = elim (Option-cases entry.scopes) [
  | inl absent ↦ rw absent refl
  | inr (scopes, listed) ↦ rw listed refl
]

only_valid-scope_in :
    (scope : String) (scopes : List String)
    → scope_in scope (only_valid scopes)
      ≡ (scope_in scope scopes && scope_in scope ("read" ∷ "trigger" ∷ "admin" ∷ []))
unfolding scope_in only_valid
only_valid-scope_in scope [] = refl
only_valid-scope_in scope (s ∷ scopes) =
    ground (arith, only_valid-scope_in scope scopes, eq_iff s scope)

-- The principal is called as the entry says, or "anonymous", and has a scope exactly if the entry
-- lists it and it is one of read, trigger and admin.
abbrev pub Names : TokenEntry → Principal → String → Type 0
Names entry principal scope =
    (principal.name ≡ elim entry.name [ none ↦ "anonymous" | some name ↦ name ])
    × (scope_in scope principal.scopes ≡ (
        scope_in scope (listed_scopes entry) && scope_in scope ("read" ∷ "trigger" ∷ "admin" ∷ [])))

principal_of-Names : (entry : TokenEntry) (scope : String) → Names entry (principal_of entry) scope
principal_of-Names entry scope = (
  elim (Option-cases entry.name) [
    | inl absent ↦ rw absent refl
    | inr (name, given) ↦ rw given refl
  ],
  only_valid-scope_in scope (or_else [] entry.scopes)
      ∙ ap
          (λ (l : List String).
            scope_in scope l && scope_in scope ("read" ∷ "trigger" ∷ "admin" ∷ []))
          (sym (listed_scopes-or_else entry)),
)

-- Who is authenticated named the bearer scheme, in letters of any case, and a token that an entry
-- of the file has; the principal has the name of that entry, or is anonymous where it has none, and
-- a scope exactly if that entry lists it and it is one of read, trigger and admin.
pub authenticate-granted :
    (entries : List TokenEntry) (tokens : TokenStore) (header : Option Text) (principal : Principal)
    (scope : String)
    → load_store (some entries) ≡ ok tokens
    → authenticate tokens header ≡ some principal
    → (text : Text) × (header ≡ some text)
      × (starts_with (lower text) (codes "bearer ") ≡ true)
      × ((entry : TokenEntry) × Memᴰ entry entries
          × (entry.token ≡ some (strip (drop 7 text)))
          × Names entry principal scope)
unfolding load_store authenticate AllGranted
authenticate-granted entries tokens none principal scope loaded e = cc
authenticate-granted entries tokens (some text) principal scope loaded e =
    elim (Bool-cases (starts_with (lower text) bearer)) [
      | inl named ↦
          let (entry, among, token, is) =
            find_token-granted entries (strip (drop 7 text)) tokens principal
              (load_tokens-AllGranted entries entries [] tokens (each_among entries) tt loaded)
              (ground (arith, named, e)) in
          (
            text,
            refl,
            named,
            (
              entry,
              among,
              token,
              subst (λ p. Names entry p scope) (sym is) (principal_of-Names entry scope),
            ),
          )
      | inr other ↦ ground (arith, other, e)
    ]
