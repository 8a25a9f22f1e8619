-- ===== src/Config/Secrets/Insert.antt =====
-- What a reference becomes.
use null.Prelude.{
  ℕ, ◌≡◌, refl, sym, ap, ◌∙◌, false, Option, some, [], ◌∷◌, ◌++◌, length, length-append,
  append_assoc, ◌-◌, arith,
}
use null.Text.{Text, codes, starts_with}
use null.Json.Str.{has_code}
use null.Config.Secrets.{
  Kind, env, match_length, until_brace, reference, sub_from, or_nothing, resolve_str, repl,
}

until_brace-append :
    (name rest : Text) → has_code b'}' name ≡ false → until_brace (name ++ b'}' ∷ rest) ≡ some name
unfolding until_brace has_code
until_brace-append [] rest h = ground arith
until_brace-append (c ∷ name) rest h = ground (arith, until_brace-append name rest)

module _ (environ : Text → Option Text) (read_text : Text → Option Text) where
  sub_from_skip :
      (skipped rest : Text)
      → sub_from environ read_text (length skipped) (skipped ++ rest)
        ≡ sub_from environ read_text 0 rest
  unfolding sub_from
  sub_from_skip [] rest = refl
  sub_from_skip (c ∷ skipped) rest = sub_from_skip skipped rest

  sub_from-match :
      (c : ℕ) (s : Text) (m : Kind × Text)
      → reference (c ∷ s) ≡ some m
      → sub_from environ read_text 0 (c ∷ s)
        ≡ repl environ read_text m ++ sub_from environ read_text (match_length m - 1) s
  unfolding sub_from
  sub_from-match c s m e = rw (e, sub_from) refl

  -- A match that is skipped as a whole.
  sub_from-matched :
      (c : ℕ) (skipped rest : Text) (m : Kind × Text)
      → reference (c ∷ (skipped ++ rest)) ≡ some m
      → match_length m - 1 ≡ length skipped
      → sub_from environ read_text 0 (c ∷ (skipped ++ rest))
        ≡ repl environ read_text m ++ sub_from environ read_text 0 rest
  sub_from-matched c skipped rest m e n =
      sub_from-match c (skipped ++ rest) m e
      ∙ ap (λ (k : ℕ). repl environ read_text m ++ sub_from environ read_text k (skipped ++ rest)) n
      ∙ ap (λ (t : Text). repl environ read_text m ++ t) (sub_from_skip skipped rest)

reference-env :
    (target : Text) (c : ℕ) (name : Text)
    → until_brace target ≡ some (c ∷ name)
    → reference (codes "${env:" ++ target) ≡ some (env, c ∷ name)
unfolding reference starts_with
reference-env target c name e = rw e refl

-- A reference to a variable at the beginning of a text, whose name is neither empty nor has a
-- brace: the value of the variable stands in its place, nothing where it is not set, as it is and
-- without being searched for references itself; then comes the rest of the text, resolved.
pub resolve_str-env :
    (environ read_text : Text → Option Text) (c : ℕ) (name rest : Text)
    → has_code b'}' (c ∷ name) ≡ false
    → resolve_str environ read_text (codes "${env:" ++ ((c ∷ name) ++ b'}' ∷ rest))
      ≡ or_nothing environ read_text (environ (c ∷ name)) ++ resolve_str environ read_text rest
unfolding resolve_str repl
resolve_str-env environ read_text c name rest h =
    let skipped = codes "{env:" ++ ((c ∷ name) ++ b'}' ∷ []) in
    ap (λ (t : Text). sub_from environ read_text 0 (codes "${env:" ++ t))
      (sym (append_assoc (c ∷ name) (b'}' ∷ []) rest))
    ∙ sub_from-matched environ read_text b'$' skipped rest (env, c ∷ name)
        (reference-env (((c ∷ name) ++ b'}' ∷ []) ++ rest) c name (
          ap until_brace (append_assoc (c ∷ name) (b'}' ∷ []) rest)
          ∙ until_brace-append (c ∷ name) rest h))
        (omega (arith, length-append name (b'}' ∷ [])))
