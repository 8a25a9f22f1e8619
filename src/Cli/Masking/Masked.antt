-- ===== src/Cli/Masking/Masked.antt =====
-- What a masked value tells of the values behind secret keys.
use null.Prelude.{String, ◌≡◌, refl, ap, Bool, true, Bool-cases, inl, inr}
use null.Text.{codes}
use null.Json.{
  Value, nothing, bool, int, float, str, list, dict, Items, nil, cons, Fields, end, field,
}
use null.Cli.Masking.{mask, mask_fields, mask_items}

module _ (is_secret : String → Bool) where
  -- Two values that differ at most in the values of secret keys, at any depth.
  mutual
    pub data Alike : Value → Value → Type 0 where
      same : (v : Value) → Alike v v
      in_dict : {fs gs : Fields} → AlikeFields fs gs → Alike (dict fs) (dict gs)
      in_list : {vs ws : Items} → AlikeItems vs ws → Alike (list vs) (list ws)

    pub data AlikeFields : Fields → Fields → Type 0 where
      no_field : AlikeFields end end
      secret_field :
          {k : String} {v w : Value} {fs gs : Fields}
          → is_secret k ≡ true
          → AlikeFields fs gs
          → AlikeFields (field k v fs) (field k w gs)
      open_field :
          {k : String} {v w : Value} {fs gs : Fields}
          → Alike v w
          → AlikeFields fs gs
          → AlikeFields (field k v fs) (field k w gs)

    pub data AlikeItems : Items → Items → Type 0 where
      no_item : AlikeItems nil nil
      one_item :
          {v w : Value} {vs ws : Items}
          → Alike v w
          → AlikeItems vs ws
          → AlikeItems (cons v vs) (cons w ws)

  mutual
    unfolding mask

    mask-same : {v w : Value} → Alike v w → mask is_secret v ≡ mask is_secret w
    mask-same (same v) = refl
    mask-same (in_dict h) = ap dict (mask_fields-same h)
    mask-same (in_list h) = ap list (mask_items-same h)

    mask_fields-same :
        {fs gs : Fields} → AlikeFields fs gs → mask_fields is_secret fs ≡ mask_fields is_secret gs
    mask_fields-same no_field = refl
    mask_fields-same (secret_field {k = k} h rest) =
        rw h (ap (field k (str (codes "***"))) (mask_fields-same rest))
    mask_fields-same (open_field h rest) = cc (mask-same h, mask_fields-same rest)

    mask_items-same :
        {vs ws : Items} → AlikeItems vs ws → mask_items is_secret vs ≡ mask_items is_secret ws
    mask_items-same no_item = refl
    mask_items-same (one_item h rest) = cc (mask-same h, mask_items-same rest)

  mutual
    unfolding mask

    mask-Alike : (v : Value) → Alike v (mask is_secret v)
    mask-Alike (dict fs) = in_dict (mask_fields-AlikeFields fs)
    mask-Alike (list vs) = in_list (mask_items-AlikeItems vs)
    mask-Alike nothing = same nothing
    mask-Alike (bool b) = same (bool b)
    mask-Alike (int n) = same (int n)
    mask-Alike (float shown whole) = same (float shown whole)
    mask-Alike (str s) = same (str s)

    mask_fields-AlikeFields : (fs : Fields) → AlikeFields fs (mask_fields is_secret fs)
    mask_fields-AlikeFields end = no_field
    mask_fields-AlikeFields (field k v rest) = elim (Bool-cases (is_secret k)) [
      | inl h ↦ secret_field h (mask_fields-AlikeFields rest)
      | inr h ↦ rw h (open_field (mask-Alike v) (mask_fields-AlikeFields rest))
    ]

    mask_items-AlikeItems : (vs : Items) → AlikeItems vs (mask_items is_secret vs)
    mask_items-AlikeItems nil = no_item
    mask_items-AlikeItems (cons v rest) = one_item (mask-Alike v) (mask_items-AlikeItems rest)

  -- Whatever the secret keys are: what is shown of two values that differ at most in the values of
  -- secret keys, at any depth, is the same, so it tells nothing of those values; and it differs from
  -- the value in nothing else.
  pub mask_lem :
      (v w : Value) → Alike v w → (mask is_secret v ≡ mask is_secret w) × Alike v (mask is_secret v)
  mask_lem v w h = (mask-same h, mask-Alike v)
