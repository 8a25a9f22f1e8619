-- ===== src/Text/Strip.antt =====
-- Laws of `strip`.
use null.Prelude.{ℕ, ◌≡◌, refl, Bool, true, not, [], ◌∷◌, arith, map, ap, ◌∙◌}
use null.Text.{Text, is_empty, is_space, to_lower, lower, drop_while, drop_while_end, strip}

-- The text does not begin with a code point of which `p` holds.
unfoldable head_free : (ℕ → Bool) → Text → Bool
head_free p [] = true
head_free p (c ∷ s) = not (p c)

module _ (p : ℕ → Bool) where
  head_free-drop_while : (s : Text) → head_free p (drop_while p s) ≡ true
  unfolding head_free drop_while
  head_free-drop_while [] = refl
  head_free-drop_while (c ∷ s) = ground (arith, head_free-drop_while s)

  head_free-drop_while_end :
      (s : Text) → head_free p s ≡ true → head_free p (drop_while_end p s) ≡ true
  unfolding head_free drop_while_end
  head_free-drop_while_end [] h = refl
  head_free-drop_while_end (c ∷ s) h = ground arith

  drop_while-head_free : (s : Text) → head_free p s ≡ true → drop_while p s ≡ s
  unfolding head_free drop_while
  drop_while-head_free [] h = refl
  drop_while-head_free (c ∷ s) h = ground arith

  drop_while_end_idem : (s : Text) → drop_while_end p (drop_while_end p s) ≡ drop_while_end p s
  unfolding drop_while_end
  drop_while_end_idem [] = refl
  drop_while_end_idem (c ∷ s) = ground (arith, drop_while_end_idem s)

  -- A change of letters that `p` does not see.
  module _ (f : ℕ → ℕ) (same : (c : ℕ) → p (f c) ≡ p c) where
    drop_while-map : (s : Text) → drop_while p (map f s) ≡ map f (drop_while p s)
    unfolding drop_while
    drop_while-map [] = refl
    drop_while-map (c ∷ s) = ground (arith, same c, drop_while-map s)

    empty-map : (s : Text) → is_empty (map f s) ≡ is_empty s
    empty-map [] = refl
    empty-map (c ∷ s) = refl

    drop_while_end-map : (s : Text) → drop_while_end p (map f s) ≡ map f (drop_while_end p s)
    unfolding drop_while_end
    drop_while_end-map [] = refl
    drop_while_end-map (c ∷ s) =
        ground (arith, same c, drop_while_end-map s, empty-map (drop_while_end p s))

pub strip_idem : (s : Text) → strip (strip s) ≡ strip s
unfolding strip
strip_idem s =
    let t = drop_while is_space s in
    ap (drop_while_end is_space) (
      drop_while-head_free is_space (drop_while_end is_space t)
        (head_free-drop_while_end is_space t (head_free-drop_while is_space s)))
    ∙ drop_while_end_idem is_space t

is_space-to_lower : (c : ℕ) → is_space (to_lower c) ≡ is_space c
unfolding is_space to_lower
is_space-to_lower c = ground arith

pub strip-lower : (s : Text) → strip (lower s) ≡ lower (strip s)
unfolding strip lower
strip-lower s =
    ap (drop_while_end is_space) (drop_while-map is_space to_lower is_space-to_lower s)
    ∙ drop_while_end-map is_space to_lower is_space-to_lower (drop_while is_space s)
