-- ===== src/Plugins/Databases/Tagged.antt =====
-- What the two enrichers change: at most the tags, by one tag, and by nothing when applied again.
use null.Prelude.{◌≡◌, ◌⊎◌, true, ◌||◌}
use null.Text.{Text, starts_with, text_eq}
use null.Errors.{Error, Result, ok, err}
use null.Models.{Indicator}
use null.Stages.Normalize.{tag_in}
use null.Plugins.Databases.{add_tag}

-- What a record says of every indicator: nothing, one tag of the kind, or that it is malformed.
abbrev Says : Text → (Indicator → Result Indicator) → Type 0
Says kind tagged =
    ((ind : Indicator) → tagged ind ≡ ok ind)
    ⊎ (((t : Text) × (starts_with t kind ≡ true)
          × ((ind : Indicator) → tagged ind ≡ ok (add_tag t ind)))
        ⊎ ((e : Error) × ((ind : Indicator) → tagged ind ≡ err e)))

-- At most one tag is put in, and a second application changes nothing.
abbrev IsTagged : Text → (Indicator → Result Indicator) → Indicator → Indicator → Type 0
IsTagged kind enrich ind out =
    ((out ≡ ind) ⊎ ((t : Text) × (starts_with t kind ≡ true) × (out ≡ add_tag t ind)))
    × (enrich out ≡ ok out)

-- What the enricher passes on: the indicator as it was, or with all its tags and one more that
-- begins as `kind` says, and with nothing else changed. Applied again it changes nothing.
abbrev pub IsEnriched :
    Text → (Indicator → Result Indicator) → Indicator → Indicator → Text → Type 0
IsEnriched kind enrich ind out tag =
    ((out ≡ ind)
      ⊎ ((t : Text) × (starts_with t kind ≡ true)
          × (record out { tags = ind.tags } ≡ ind)
          × (tag_in tag out.tags ≡ (tag_in tag ind.tags || text_eq t tag))))
    × (enrich out ≡ ok out)
