-- ===== src/Config/Secrets/Paths.antt =====
-- What stands where a reference stood, at any depth of a configuration.
use null.Prelude.{
  ℕ, zero, suc, ◌≡◌, refl, ap, ◌∙◌, false, Option, none, some, List, [], ◌∷◌, ◌++◌, String, str_eq,
  Bool-cases, inl, inr, arith, if◌then◌else◌,
}
use null.Text.{Text, codes, starts_with}
use null.Json.{
  Value, nothing, bool, int, float, str, list, dict, Items, nil, cons, Fields, end, field,
}
use null.Json.Str.{has_code}
use null.Config.Secrets.{
  reference, sub_from, or_nothing, resolve_str, resolve_secrets, resolve_items, resolve_fields,
}
use null.Config.Secrets.Insert.{resolve_str-env}

-- A way into a value: by a key or by a position.
pub data Step : Type 0 where
  key : String → Step
  place : ℕ → Step

-- The value at the end of a path, if it leads anywhere.
unfoldable mutual
  pub value_at : List Step → Value → Option Value
  value_at [] v = some v
  value_at (key k ∷ path) (dict vs) = field_at k path vs
  value_at (place n ∷ path) (list vs) = item_at n path vs
  value_at (s ∷ path) v = none

  pub field_at : String → List Step → Fields → Option Value
  field_at k path end = none
  field_at k path (field j v vs) =
      let here = value_at path v in
      let later = field_at k path vs in if str_eq j k then here else later

  pub item_at : ℕ → List Step → Items → Option Value
  item_at n path nil = none
  item_at zero path (cons v vs) = value_at path v
  item_at (suc n) path (cons v vs) = item_at n path vs

module _ (environ : Text → Option Text) (read_text : Text → Option Text) where
  mutual
    unfolding value_at resolve_secrets

    value_at-resolve :
        (path : List Step) (v : Value) (s : Text)
        → value_at path v ≡ some (str s)
        → value_at path (resolve_secrets environ read_text v)
          ≡ some (str (resolve_str environ read_text s))
    value_at-resolve [] v s h =
        let is : v ≡ str s = cc in ap (λ (w : Value). some (resolve_secrets environ read_text w)) is
    value_at-resolve (key k ∷ path) (dict vs) s h = field_at-resolve k path vs s h
    value_at-resolve (key k ∷ path) (list vs) s h = cc
    value_at-resolve (key k ∷ path) (str t) s h = cc
    value_at-resolve (key k ∷ path) nothing s h = cc
    value_at-resolve (key k ∷ path) (bool b) s h = cc
    value_at-resolve (key k ∷ path) (int n) s h = cc
    value_at-resolve (key k ∷ path) (float shown whole) s h = cc
    value_at-resolve (place n ∷ path) (list vs) s h = item_at-resolve n path vs s h
    value_at-resolve (place n ∷ path) (dict vs) s h = cc
    value_at-resolve (place n ∷ path) (str t) s h = cc
    value_at-resolve (place n ∷ path) nothing s h = cc
    value_at-resolve (place n ∷ path) (bool b) s h = cc
    value_at-resolve (place n ∷ path) (int m) s h = cc
    value_at-resolve (place n ∷ path) (float shown whole) s h = cc

    field_at-resolve :
        (k : String) (path : List Step) (vs : Fields) (s : Text)
        → field_at k path vs ≡ some (str s)
        → field_at k path (resolve_fields environ read_text vs)
          ≡ some (str (resolve_str environ read_text s))
    field_at-resolve k path end s h = cc
    field_at-resolve k path (field j v vs) s h = elim (Bool-cases (str_eq j k)) [
      | inl same ↦ rw same (value_at-resolve path v s (rw same at h))
      | inr other ↦ rw other (field_at-resolve k path vs s (rw other at h))
    ]

    item_at-resolve :
        (n : ℕ) (path : List Step) (vs : Items) (s : Text)
        → item_at n path vs ≡ some (str s)
        → item_at n path (resolve_items environ read_text vs)
          ≡ some (str (resolve_str environ read_text s))
    item_at-resolve n path nil s h = cc
    item_at-resolve zero path (cons v vs) s h = value_at-resolve path v s h
    item_at-resolve (suc n) path (cons v vs) s h = item_at-resolve n path vs s h

  sub_from-plain_append :
      (s rest : Text)
      → has_code b'$' s ≡ false
      → sub_from environ read_text 0 (s ++ rest) ≡ s ++ sub_from environ read_text 0 rest
  unfolding sub_from has_code reference starts_with
  sub_from-plain_append [] rest h = refl
  sub_from-plain_append (c ∷ s) rest h = ground (arith, sub_from-plain_append s rest)

  or_nothing-elim :
      (o : Option Text) → or_nothing environ read_text o ≡ elim o [ none ↦ [] | some value ↦ value ]
  or_nothing-elim none = refl
  or_nothing-elim (some value) = refl

  -- A text anywhere in a configuration, at the end of any path through its dictionaries and lists,
  -- with a reference to a variable whose name is neither empty nor has a brace, and no dollar sign
  -- before it: what stands there afterwards is the text before the reference, the value of the
  -- variable, or nothing where it is not set, and the rest of the text, resolved.
  pub value_at-resolve_secrets :
      (path : List Step) (v : Value) (before : Text) (c : ℕ) (name rest : Text)
      → value_at path v ≡ some (str (before ++ (codes "${env:" ++ ((c ∷ name) ++ b'}' ∷ rest))))
      → has_code b'$' before ≡ false
      → has_code b'}' (c ∷ name) ≡ false
      → value_at path (resolve_secrets environ read_text v)
        ≡ some (
            str (
              before
              ++ (elim (environ (c ∷ name)) [ none ↦ [] | some value ↦ value ]
                  ++ resolve_str environ read_text rest)))
  unfolding resolve_str
  value_at-resolve_secrets path v before c name rest there plain closed =
      let rest' = resolve_str environ read_text rest in
      value_at-resolve path v (before ++ (codes "${env:" ++ ((c ∷ name) ++ b'}' ∷ rest))) there
      ∙ ap (λ (t : Text). some (str t))
          (sub_from-plain_append before (codes "${env:" ++ ((c ∷ name) ++ b'}' ∷ rest)) plain
            ∙ ap (λ (t : Text). before ++ t)
                (resolve_str-env environ read_text c name rest closed
                  ∙ ap (λ (t : Text). t ++ rest') (or_nothing-elim (environ (c ∷ name)))))
