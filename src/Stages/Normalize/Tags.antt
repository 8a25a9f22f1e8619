-- ===== src/Stages/Normalize/Tags.antt =====
-- The tags of a normalised record.
use null.Prelude.{◌≡◌, refl, sym, ap, Bool, true, not, ◌&&◌, List, [], ◌∷◌, arith}
use null.Text.{Text, text_eq}
use null.Text.Laws.{eq_of_text_eq, text_eq_refl}
use null.Stages.Normalize.{tag_in, fromkeys_after}

-- No text stands twice in the list.
unfoldable pub unique : List Text → Bool
unfolding tag_in
unique [] = true
unique (t ∷ ts) = not (tag_in t ts) && unique ts

pub tag_in-cong : (t u : Text) (ts : List Text) → text_eq u t ≡ true → tag_in t ts ≡ tag_in u ts
tag_in-cong t u ts h = ap (λ v. tag_in v ts) (sym (eq_of_text_eq u t h))

-- A tag is among the result exactly if it is among the tags and was not seen.
fromkeys_after-tag_in :
    (t : Text) (seen ts : List Text)
    → tag_in t (fromkeys_after seen ts) ≡ (tag_in t ts && not (tag_in t seen))
unfolding tag_in fromkeys_after
fromkeys_after-tag_in t seen [] = refl
fromkeys_after-tag_in t seen (u ∷ ts) = ground (
  arith,
  tag_in-cong t u seen,
  fromkeys_after-tag_in t seen ts,
  fromkeys_after-tag_in t (u ∷ seen) ts,
)

fromkeys_after-unique : (seen ts : List Text) → unique (fromkeys_after seen ts) ≡ true
unfolding unique fromkeys_after tag_in
fromkeys_after-unique seen [] = refl
fromkeys_after-unique seen (u ∷ ts) = ground (
  arith,
  text_eq_refl u,
  fromkeys_after-tag_in u (u ∷ seen) ts,
  fromkeys_after-unique seen ts,
  fromkeys_after-unique (u ∷ seen) ts,
)

-- `tuple(dict.fromkeys(tags))` holds the tags that the list holds and no others, each once.
pub fromkeys_lem :
    (t : Text) (tags : List Text)
    → (tag_in t (fromkeys_after [] tags) ≡ tag_in t tags) × (unique (fromkeys_after [] tags) ≡ true)
unfolding tag_in
fromkeys_lem t tags =
    (ground (arith, fromkeys_after-tag_in t [] tags), fromkeys_after-unique [] tags)
