-- ===== src/Config/Secrets/Shape.antt =====
-- What `resolve_secrets` keeps, and what it puts in.
use null.Prelude.{◌≡◌, refl, ap, Bool, true, false, ◌&&◌, Option, [], ◌∷◌, arith, if◌then◌else◌}
use null.Text.{Text, starts_with}
use null.Json.{
  Value, nothing, bool, int, float, str, list, dict, Items, nil, cons, Fields, end, field,
}
use null.Json.Str.{has_code}
use null.Config.Secrets.{
  reference, sub_from, resolve_str, resolve_secrets, resolve_items, resolve_fields,
}

-- A value without its texts: its types, its keys and all that is no text.
unfoldable mutual
  pub skeleton : Value → Value
  skeleton (str s) = str []
  skeleton (dict vs) = dict (skeleton_fields vs)
  skeleton (list vs) = list (skeleton_items vs)
  skeleton nothing = nothing
  skeleton (bool b) = bool b
  skeleton (int n) = int n
  skeleton (float shown whole) = float shown whole

  pub skeleton_items : Items → Items
  skeleton_items nil = nil
  skeleton_items (cons v vs) = cons (skeleton v) (skeleton_items vs)

  pub skeleton_fields : Fields → Fields
  skeleton_fields end = end
  skeleton_fields (field k v vs) = field k (skeleton v) (skeleton_fields vs)

-- No text of the value has a dollar sign.
unfoldable mutual
  pub is_plain : Value → Bool
  is_plain (str s) = if has_code b'$' s then false else true
  is_plain (dict vs) = plain_fields vs
  is_plain (list vs) = plain_items vs
  is_plain nothing = true
  is_plain (bool b) = true
  is_plain (int n) = true
  is_plain (float shown whole) = true

  pub plain_items : Items → Bool
  plain_items nil = true
  plain_items (cons v vs) = is_plain v && plain_items vs

  pub plain_fields : Fields → Bool
  plain_fields end = true
  plain_fields (field k v vs) = is_plain v && plain_fields vs

module _ (environ : Text → Option Text) (read_text : Text → Option Text) where
  mutual
    unfolding skeleton resolve_secrets

    skeleton-resolve : (v : Value) → skeleton (resolve_secrets environ read_text v) ≡ skeleton v
    skeleton-resolve (str s) = refl
    skeleton-resolve (dict vs) = ap dict (skeleton-resolve_fields vs)
    skeleton-resolve (list vs) = ap list (skeleton-resolve_items vs)
    skeleton-resolve nothing = refl
    skeleton-resolve (bool b) = refl
    skeleton-resolve (int n) = refl
    skeleton-resolve (float shown whole) = refl

    skeleton-resolve_items :
        (vs : Items) → skeleton_items (resolve_items environ read_text vs) ≡ skeleton_items vs
    skeleton-resolve_items nil = refl
    skeleton-resolve_items (cons v vs) = cc (skeleton-resolve v, skeleton-resolve_items vs)

    skeleton-resolve_fields :
        (vs : Fields) → skeleton_fields (resolve_fields environ read_text vs) ≡ skeleton_fields vs
    skeleton-resolve_fields end = refl
    skeleton-resolve_fields (field k v vs) = cc (skeleton-resolve v, skeleton-resolve_fields vs)

  sub_from_plain : (s : Text) → has_code b'$' s ≡ false → sub_from environ read_text 0 s ≡ s
  unfolding sub_from has_code reference starts_with
  sub_from_plain [] h = refl
  sub_from_plain (c ∷ s) h = ground (arith, sub_from_plain s)

  resolve_str_plain : (s : Text) → has_code b'$' s ≡ false → resolve_str environ read_text s ≡ s
  unfolding resolve_str
  resolve_str_plain s h = sub_from_plain s h

  mutual
    unfolding is_plain resolve_secrets

    resolve_plain : (v : Value) → is_plain v ≡ true → resolve_secrets environ read_text v ≡ v
    resolve_plain (str s) h = ap str (resolve_str_plain s (ground arith))
    resolve_plain (dict vs) h = ap dict (resolve_plain_fields vs h)
    resolve_plain (list vs) h = ap list (resolve_plain_items vs h)
    resolve_plain nothing h = refl
    resolve_plain (bool b) h = refl
    resolve_plain (int n) h = refl
    resolve_plain (float shown whole) h = refl

    resolve_plain_items :
        (vs : Items) → plain_items vs ≡ true → resolve_items environ read_text vs ≡ vs
    resolve_plain_items nil h = refl
    resolve_plain_items (cons v vs) h =
        cc (resolve_plain v (ground arith), resolve_plain_items vs (ground arith))

    resolve_plain_fields :
        (vs : Fields) → plain_fields vs ≡ true → resolve_fields environ read_text vs ≡ vs
    resolve_plain_fields end h = refl
    resolve_plain_fields (field k v vs) h =
        cc (resolve_plain v (ground arith), resolve_plain_fields vs (ground arith))

-- Whatever the environment and the files hold, the resolved configuration has the types of the one
-- that was read: the same keys in the same order, lists of the same lengths, texts where there were
-- texts, and every other value as it was.
pub skeleton-resolve_secrets :
    (environ read_text : Text → Option Text) (v : Value)
    → skeleton (resolve_secrets environ read_text v) ≡ skeleton v
skeleton-resolve_secrets environ read_text v = skeleton-resolve environ read_text v

-- A configuration without a dollar sign in its texts is what it was.
pub resolve_secrets_plain :
    (environ read_text : Text → Option Text) (v : Value)
    → is_plain v ≡ true
    → resolve_secrets environ read_text v ≡ v
resolve_secrets_plain environ read_text v h = resolve_plain environ read_text v h
