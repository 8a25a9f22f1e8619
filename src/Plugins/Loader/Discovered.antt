-- ===== src/Plugins/Loader/Discovered.antt =====
-- What `discover` finds and what `load` loads.
use mathlib.Core.Path.{subst}
use null.Prelude.{
  String, str_eq, ◌≡◌, refl, sym, ap, ◌∙◌, ◌⊎◌, inl, inr, Bool, true, false, not, ◌&&◌, Bool-cases,
  Option, none, some, List, [], ◌∷◌, arith, eq_iff,
}
use null.Dict.{Dict, lookup, insert, lookup-insert_self, lookup-insert_ne}
use null.Errors.{Result, ok, err, >>=-eq-ok}
use null.Plugins.Builder.{has_name}
use null.Plugins.Loader.{
  EntryPoint, all_groups, load_failed, of_group, named, discover_group, group_found,
  discover_groups, no_plugins, discover, load_first, load,
}

-- No name stands twice.
unfoldable pub no_repeat : List String → Bool
no_repeat [] = true
no_repeat (n ∷ names) = not (has_name n names) && no_repeat names

load_failed-ok {ℓ} :
    {A : Type ℓ} (what : String) (r : Result A) (a : A) → load_failed what r ≡ ok a → r ≡ ok a
load_failed-ok what (ok b) a h = h
load_failed-ok what (err e) a h = ground (arith, h)

module _ {Class : Type 0} where
  abbrev is_unnamed : List (EntryPoint Class) → Bool
  is_unnamed [] = true
  is_unnamed (ep ∷ eps) = false

  -- No two entry points have one name.
  unfoldable pub distinct : List (EntryPoint Class) → Bool
  unfolding named
  distinct [] = true
  distinct (ep ∷ eps) = is_unnamed (named ep.name eps) && distinct eps

  -- What `discover_group` adds for a name is what the first entry point of the name loads.
  abbrev Found : String → List (EntryPoint Class) → Dict Class → Option Class → Type 0
  Found name [] d c = c ≡ lookup name d
  Found name (ep ∷ eps) d c = (cls : Class) × (ep.load ≡ ok cls) × (c ≡ some cls)

  Found-inserted :
      (name : String) (eps : List (EntryPoint Class)) (cls : Class) (d : Dict Class)
      (c : Option Class)
      → is_unnamed eps ≡ true
      → Found name eps (insert name cls d) c
      → c ≡ some cls
  Found-inserted name [] cls d c none_left h = h ∙ lookup-insert_self name cls d
  Found-inserted name (ep ∷ eps) cls d c none_left h = cc

  Found-other :
      (name other : String) (eps : List (EntryPoint Class)) (cls : Class) (d : Dict Class)
      (c : Option Class)
      → str_eq other name ≡ false
      → Found name eps (insert other cls d) c
      → Found name eps d c
  Found-other name other [] cls d c differ h =
      h ∙ lookup-insert_ne other name cls d (λ e. ground (arith, eq_iff other name))
  Found-other name other (ep ∷ eps) cls d c differ h = h

  Found-rest :
      (name : String) (ep : EntryPoint Class) (cls : Class) (eps : List (EntryPoint Class))
      (d : Dict Class) (c : Option Class)
      → is_unnamed (named ep.name eps) ≡ true
      → ep.load ≡ ok cls
      → Found name (named name eps) (insert ep.name cls d) c
      → Found name (named name (ep ∷ eps)) d c
  unfolding named
  Found-rest name ep cls eps d c first loaded h = elim (Bool-cases (str_eq ep.name name)) [
    | inl same ↦
        let is : ep.name ≡ name = ground (arith, eq_iff ep.name name) in
        rw same (
          cls,
          loaded,
          Found-inserted name (named name eps) cls d c
              (subst (λ (n : String). is_unnamed (named n eps) ≡ true) is first)
              (subst (λ (n : String). Found name (named name eps) (insert n cls d) c) is h),
        )
    | inr differ ↦ rw differ (Found-other name ep.name (named name eps) cls d c differ h)
  ]

  discover_group-Found :
      (group name : String) (eps : List (EntryPoint Class)) (d : Dict Class) {d' : Dict Class}
      → distinct eps ≡ true
      → discover_group group eps d ≡ ok d'
      → Found name (named name eps) d (lookup name d')
  unfolding discover_group named distinct
  discover_group-Found group name [] d {d'} h e = cc
  discover_group-Found group name (ep ∷ eps) d {d'} h e =
      let (cls, loaded, e') = >>=-eq-ok (load_failed _ ep.load) _ e in
      Found-rest name ep cls eps d (lookup name d') (ground arith)
        (load_failed-ok _ ep.load cls loaded)
        (discover_group-Found group name eps (insert ep.name cls d) {d' = d'} (ground arith) e')

  discover_groups-other :
      (eps : List (EntryPoint Class)) (group : String) (groups : List String)
      (out : Dict (Dict Class)) {out' : Dict (Dict Class)}
      → has_name group groups ≡ false
      → discover_groups eps groups out ≡ ok out'
      → lookup group out' ≡ lookup group out
  unfolding discover_groups
  discover_groups-other eps group [] out {out'} h e = cc
  discover_groups-other eps group (g ∷ groups) out {out'} h e =
      let (found, _, e') =
        >>=-eq-ok (discover_group g (of_group g eps) (group_found (lookup g out))) _ e in
      discover_groups-other eps group groups (insert g found out) {out' = out'} (ground arith) e'
      ∙ lookup-insert_ne g group found out (λ same. ground (arith, eq_iff g group))

  discover_groups-group :
      (eps : List (EntryPoint Class)) (group : String) (groups : List String)
      (out : Dict (Dict Class)) {out' : Dict (Dict Class)}
      → no_repeat groups ≡ true
      → has_name group groups ≡ true
      → discover_groups eps groups out ≡ ok out'
      → (found : Dict Class) × (lookup group out' ≡ some found)
        × (discover_group group (of_group group eps) (group_found (lookup group out)) ≡ ok found)
  unfolding discover_groups no_repeat
  discover_groups-group eps group [] out h there e = cc
  discover_groups-group eps group (g ∷ groups) out {out'} h there e =
      let (found, loaded, e') =
        >>=-eq-ok (discover_group g (of_group g eps) (group_found (lookup g out))) _ e in
      elim (Bool-cases (str_eq g group)) [
        | inl same ↦
            let is : g ≡ group = ground (arith, eq_iff g group) in
            (
              found,
              subst (λ (n : String). lookup n out' ≡ some found) is
                  (discover_groups-other eps g groups (insert g found out) {out' = out'}
                      (ground arith) e'
                    ∙ lookup-insert_self g found out),
              subst
                  (λ (n : String).
                    discover_group n (of_group n eps) (group_found (lookup n out)) ≡ ok found)
                  is loaded,
            )
        | inr differ ↦
            let (found', known, loaded') =
              discover_groups-group eps group groups (insert g found out) {out' = out'}
                (ground arith) (ground (arith, differ)) e' in
            (
              found',
              known,
              ap
                    (λ (o : Option (Dict Class)).
                      discover_group group (of_group group eps) (group_found o))
                    (sym
                      (lookup-insert_ne g group found out (λ is. ground (arith, eq_iff g group))))
                  ∙ loaded',
            )
      ]

  no_plugins-lookup :
      (group : String) (groups : List String)
      → has_name group groups ≡ true
      → lookup {V = Dict Class} group (no_plugins groups) ≡ some []
  unfolding lookup
  no_plugins-lookup group [] h = cc
  no_plugins-lookup group (g ∷ groups) h = ground (arith, no_plugins-lookup group groups)

  Found-load :
      (group name : String) (eps : List (EntryPoint Class)) (c : Option Class)
      → Found name eps [] c
      → ((cls : Class) × (c ≡ some cls) × (load_first group name eps ≡ ok cls))
        ⊎ ((c ≡ none) × (load_first group name eps ≡ load_first group name []))
  unfolding lookup
  Found-load group name [] c h = inr (h, refl)
  Found-load group name (ep ∷ eps) c (cls, loaded, h) = inl (cls, h, rw loaded refl)

  -- Once the plugins of the installed packages are discovered, where no two of a group have one name:
  -- the result has each of the four groups, with the class that `load` loads for a name of the
  -- group; for any other name it has none, and `load` raises its error.
  pub discover-load :
      (eps : List (EntryPoint Class)) (out : Dict (Dict Class)) (group name : String)
      → discover eps ≡ ok out
      → has_name group all_groups ≡ true
      → distinct (of_group group eps) ≡ true
      → (found : Dict Class) × (lookup group out ≡ some found)
        × (((cls : Class) × (lookup name found ≡ some cls) × (load eps group name ≡ ok cls))
            ⊎ ((lookup name found ≡ none) × (load eps group name ≡ load_first group name [])))
  unfolding discover load
  discover-load eps out group name e there once =
      let (found, known, loaded) =
        discover_groups-group eps group all_groups (no_plugins all_groups) {out' = out}
          (unfold no_repeat in refl) there e in
      let from_none =
        ap (λ (o : Option (Dict Class)). discover_group group (of_group group eps) (group_found o))
          (sym (no_plugins-lookup group all_groups there))
        ∙ loaded in
      (
        found,
        known,
        Found-load group name (named name (of_group group eps)) (lookup name found)
            (discover_group-Found group name (of_group group eps) [] {d' = found} once from_none),
      )
