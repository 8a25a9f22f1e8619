-- ===== src/Plugins/Defang/Refanged.antt =====
-- What becomes of a value.
use null.Prelude.{
  ◌≡◌, refl, sym, ap, ◌∙◌, Bool, true, false, not, ◌&&◌, ◌⊎◌, none, some, List, [], ◌∷◌, ◌++◌,
  arith, inl, inr, Bool-cases, ◌==◌, drop, if◌then◌else◌,
}
use null.Text.{Text, codes, lower, to_lower, starts_with, text_eq}
use null.Text.Laws.{eq_of_text_eq}
use null.Models.{Indicator}
use null.Plugins.Defang.{Pattern, patterns, is_word, literal, sub_from, sub, refanged, enrich_sync}

-- Nowhere in the text does the pattern match, with a word before it or without.
unfoldable pub unmatched : Pattern → Text → Bool
unmatched pattern [] = true
unmatched pattern (c ∷ s) =
    let rest = unmatched pattern s in
    elim (pattern.matcher (c ∷ s)) [ none ↦ rest | some m ↦ false ]

unfoldable pub all_unmatched : List Pattern → Text → Bool
unfolding unmatched
all_unmatched [] s = true
all_unmatched (pattern ∷ rest) s = unmatched pattern s && all_unmatched rest s

sub_from-unmatched :
    (pattern : Pattern) (word : Bool) (s : Text)
    → unmatched pattern s ≡ true
    → sub_from pattern 0 word s ≡ s
unfolding sub_from unmatched
sub_from-unmatched pattern word [] h = refl
sub_from-unmatched pattern word (c ∷ s) h = ground (arith, sub_from-unmatched pattern (is_word c) s)

refanged-unmatched : (ps : List Pattern) (s : Text) → all_unmatched ps s ≡ true → refanged ps s ≡ s
unfolding refanged all_unmatched sub
refanged-unmatched [] s h = refl
refanged-unmatched (pattern ∷ rest) s h =
    ap (refanged rest) (sub_from-unmatched pattern false s (ground arith))
    ∙ refanged-unmatched rest s (ground arith)

-- A value in which each full stop is written in brackets.
unfoldable pub bracketed : Text → Text
bracketed [] = []
bracketed (c ∷ s) = if c == b'.' then codes "[.]" ++ bracketed s else c ∷ bracketed s

unfoldable pub no_bracket : Text → Bool
no_bracket [] = true
no_bracket (c ∷ s) = not (c == b'[') && no_bracket s

sub-bracketed :
    (word : Bool) (s : Text)
    → no_bracket s ≡ true
    → sub_from
        (record { bounded = false; matcher = literal (codes "[.]") (codes ".") })
        0
        word
        (bracketed s)
      ≡ s
unfolding sub_from bracketed no_bracket literal lower starts_with to_lower
sub-bracketed word [] h = refl
sub-bracketed word (c ∷ s) h = ground (arith, sub-bracketed (is_word c) s)

-- The enricher stores what the patterns make of the value, also where that is the value.
enrich_sync-refanged :
    (ind : Indicator) → enrich_sync true ind ≡ record ind { value = refanged patterns ind.value }
unfolding enrich_sync
enrich_sync-refanged ind = elim (Bool-cases (text_eq (refanged patterns ind.value) ind.value)) [
  | inl same ↦
      rw (same, enrich_sync)
        (ap (λ (v : Text). record ind { value = v })
          (sym (eq_of_text_eq (refanged patterns ind.value) ind.value same)))
  | inr changed ↦ rw (changed, enrich_sync) refl
]

-- Where that is nothing new, neither does it where it is disabled.
enrich_sync_on :
    (enabled : Bool) (ind : Indicator)
    → record ind { value = refanged patterns ind.value } ≡ ind
    → enrich_sync enabled ind ≡ ind
enrich_sync_on false ind e = unfold enrich_sync in refl
enrich_sync_on true ind e = enrich_sync-refanged ind ∙ e

-- A value in which none of the patterns matches anywhere is not changed, and neither is any other
-- part of the indicator; nor is any value where the enricher is disabled.
pub enrich_sync_unchanged :
    (enabled : Bool) (ind : Indicator)
    → (enabled ≡ false) ⊎ (all_unmatched patterns ind.value ≡ true)
    → enrich_sync enabled ind ≡ ind
unfolding enrich_sync
enrich_sync_unchanged enabled ind (inl off) = ground (arith, off)
enrich_sync_unchanged enabled ind (inr clean) =
    enrich_sync_on enabled ind
      (ap (λ (v : Text). record ind { value = v }) (refanged-unmatched patterns ind.value clean))

all_unmatched-rest :
    (pattern : Pattern) (rest : List Pattern) (s : Text)
    → all_unmatched (pattern ∷ rest) s ≡ true
    → all_unmatched rest s ≡ true
unfolding all_unmatched
all_unmatched-rest pattern rest s h = ground arith

-- Those after the first.
abbrev other_patterns : List Pattern
other_patterns = drop 1 patterns

-- A value is restored in which each full stop was written in brackets: if it has no square bracket
-- of its own and none of the patterns matches in it, the enricher puts it back as it was.
pub enrich_sync-bracketed :
    (ind : Indicator) (value : Text)
    → no_bracket value ≡ true
    → all_unmatched patterns value ≡ true
    → ind.value ≡ bracketed value
    → enrich_sync true ind ≡ record ind { value = value }
unfolding enrich_sync
enrich_sync-bracketed ind value h clean is =
    enrich_sync-refanged ind
    ∙ ap (λ (v : Text). record ind { value = v })
        (ap (refanged patterns) is
          ∙ ap (refanged other_patterns) (sub-bracketed false value h)
          ∙ refanged-unmatched other_patterns value (
              all_unmatched-rest
                (record { bounded = false; matcher = literal (codes "[.]") (codes ".") })
                other_patterns value clean))
