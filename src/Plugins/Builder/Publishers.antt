-- ===== src/Plugins/Builder/Publishers.antt =====
-- The store is always the canonical publisher.
use mathlib.Core.Path.{subst}
use null.Prelude.{
  String, str_eq, ◌≡◌, refl, sym, ap, ◌∙◌, true, false, Option, none, some, List, [], ◌∷◌, ◌++◌,
  append-nil, append_assoc, arith, Bool-cases, inl, inr, eq_iff, if◌then◌else◌,
}
use null.Dict.{Dict}
use null.Errors.{Result, ok, >>=-eq-ok}
use null.Json.{Fields}
use null.Registry.{SourceConfig}
use null.Plugins.Builder.{
  PluginLoader, params_of, has_name, default_names, publisher_names, PipelineSpec, load_enrichers,
  place, load_publishers, asserted, build_pipeline_spec,
}

-- The names but for the first that is the store's.
unfoldable pub others : List String → List String
others [] = []
others (n ∷ names) = if str_eq n "postgres" then names else n ∷ others names

ok_inj {ℓ} : {A : Type ℓ} (a b : A) → ok a ≡ ok b → a ≡ b
ok_inj a b e = cc

named : (name : String) → str_eq name "postgres" ≡ true → name ≡ "postgres"
named name h = ground (arith, eq_iff name "postgres")

still :
    (name : String) (names : List String)
    → str_eq name "postgres" ≡ false
    → has_name "postgres" (name ∷ names) ≡ true
    → has_name "postgres" names ≡ true
still name names other h = ground (arith, other)

module _ (loader : PluginLoader) (name : String) (p : loader.Publisher) where
  place-some :
      (c : loader.Publisher) (extras : List loader.Publisher)
      (rest : Option loader.Publisher
        → List loader.Publisher
        → Result (Option loader.Publisher × List loader.Publisher))
      → place loader name p (some c) extras rest ≡ rest (some c) (extras ++ p ∷ [])
  place-some c extras rest = elim (Bool-cases (str_eq name "postgres")) [
    | inl h ↦ rw h refl
    | inr h ↦ rw h refl
  ]

  place-store :
      (extras : List loader.Publisher)
      (rest : Option loader.Publisher
        → List loader.Publisher
        → Result (Option loader.Publisher × List loader.Publisher))
      → str_eq name "postgres" ≡ true
      → place loader name p none extras rest ≡ rest (some p) extras
  place-store extras rest h = rw h refl

  place-other :
      (extras : List loader.Publisher)
      (rest : Option loader.Publisher
        → List loader.Publisher
        → Result (Option loader.Publisher × List loader.Publisher))
      → str_eq name "postgres" ≡ false
      → place loader name p none extras rest ≡ rest none (extras ++ p ∷ [])
  place-other extras rest h = rw h refl

module _ (loader : PluginLoader) (params : Dict Fields) where
  -- The publishers are what the loader makes of the names, one for each and in order.
  abbrev pub Loaded : List String → List loader.Publisher → Type 0
  Loaded [] [] = Unit
  Loaded [] (p ∷ ps) = ⊥
  Loaded (n ∷ names) [] = ⊥
  Loaded (n ∷ names) (p ∷ ps) =
      (loader.load_publisher n (params_of n params) ≡ ok p) × Loaded names ps

  -- Once there is a canonical publisher the others are extras.
  load_publishers-some :
      (names : List String) (c : loader.Publisher) (extras : List loader.Publisher)
      {r : Option loader.Publisher × List loader.Publisher}
      → load_publishers loader params names (some c) extras ≡ ok r
      → (r.0 ≡ some c) × ((ps : List loader.Publisher) × (r.1 ≡ extras ++ ps) × Loaded names ps)
  unfolding load_publishers
  load_publishers-some [] c extras {r} h =
      let same = ok_inj (some c, extras) r h in
      (
        ap (λ (q : Option loader.Publisher × List loader.Publisher). q.0) (sym same),
        (
          [],
          ap (λ (q : Option loader.Publisher × List loader.Publisher). q.1) (sym same)
              ∙ sym (append-nil extras),
          tt,
        ),
      )
  load_publishers-some (name ∷ names) c extras {r} h =
      let (p, loaded, h') = >>=-eq-ok (loader.load_publisher name (params_of name params)) _ h in
      let (canonical, (ps, rest, others_loaded)) =
        load_publishers-some names c (extras ++ p ∷ []) {r = r}
          (sym (place-some loader name p c extras (load_publishers loader params names)) ∙ h') in
      (canonical, (p ∷ ps, rest ∙ append_assoc extras (p ∷ []) ps, (loaded, others_loaded)))

  load_publishers-none :
      (names : List String) (extras : List loader.Publisher)
      {r : Option loader.Publisher × List loader.Publisher}
      → has_name "postgres" names ≡ true
      → load_publishers loader params names none extras ≡ ok r
      → (c : loader.Publisher) × (r.0 ≡ some c)
        × (loader.load_publisher "postgres" (params_of "postgres" params) ≡ ok c)
        × ((ps : List loader.Publisher) × (r.1 ≡ extras ++ ps) × Loaded (others names) ps)
  unfolding load_publishers others
  load_publishers-none [] extras h e = cc
  load_publishers-none (name ∷ names) extras {r} h e =
      let (p, loaded, e') = >>=-eq-ok (loader.load_publisher name (params_of name params)) _ e in
      elim (Bool-cases (str_eq name "postgres")) [
        | inl store ↦
            let (canonical, extra) = load_publishers-some names p extras {r = r} (
              sym (place-store loader name p extras (load_publishers loader params names) store)
              ∙ e') in
            rw store (
              p,
              canonical,
              subst (λ (n : String). loader.load_publisher n (params_of n params) ≡ ok p)
                  (named name store) loaded,
              extra,
            )
        | inr other ↦
            let (c, canonical, store, (ps, rest, others_loaded)) =
              load_publishers-none names (extras ++ p ∷ []) {r = r} (still name names other h) (
                sym (place-other loader name p extras (load_publishers loader params names) other)
                ∙ e') in
            rw other (
              c,
              canonical,
              store,
              (p ∷ ps, rest ∙ append_assoc extras (p ∷ []) ps, (loaded, others_loaded)),
            )
      ]

store_named : (names : List String) → has_name "postgres" (publisher_names names) ≡ true
store_named names =
    let given = default_names names in
    elim (Bool-cases (has_name "postgres" given)) [ inl h ↦ rw h h | inr h ↦ rw h refl ]

asserted-some :
    (loader : PluginLoader) (o : Option loader.Publisher) {store canonical : loader.Publisher}
    → o ≡ some store
    → asserted loader o ≡ ok canonical
    → store ≡ canonical
asserted-some loader none h e = cc
asserted-some loader (some p) h e = cc

others-unnamed : (names : List String) → has_name "postgres" names ≡ false → others names ≡ names
unfolding others
others-unnamed [] h = refl
others-unnamed (n ∷ names) h = ground (arith, others-unnamed names)

-- The store that is put in front is no other.
others-publisher_names : (names : List String) → others (publisher_names names) ≡ others names
unfolding others
others-publisher_names [] = refl
others-publisher_names (n ∷ names) = elim (Bool-cases (has_name "postgres" (n ∷ names))) [
  | inl named ↦ rw named refl
  | inr unnamed ↦ rw unnamed (sym (others-unnamed (n ∷ names) unnamed))
]

-- A pipeline that is built: its canonical publisher is the store, loaded with its parameters,
-- whether the source names it or not; its extra publishers are the others that the source names,
-- one for each name and in their order, loaded with their parameters: all names in the source's list
-- but for the first that is the store's.
pub build_pipeline_spec-publishers :
    (loader : PluginLoader) (source : SourceConfig) (replay_from_uri : Option String)
    (spec : PipelineSpec loader)
    → build_pipeline_spec loader source replay_from_uri ≡ ok spec
    → (loader.load_publisher "postgres" (params_of "postgres" source.publisher_params)
        ≡ ok spec.canonical_publisher)
      × Loaded loader source.publisher_params (others source.publishers) spec.extra_publishers
unfolding build_pipeline_spec
build_pipeline_spec-publishers loader source replay_from_uri spec e =
    let (connector, c, e1) = >>=-eq-ok (loader.load_connector source.plugin source.params) _ e in
    let (parser, p, e2) = >>=-eq-ok (loader.load_parser source.parser source.parser_params) _ e1 in
    let (enrichers, n, e3) =
      >>=-eq-ok (load_enrichers loader source.enricher_params source.enrichers) _ e2 in
    let (publishers, l, e4) =
      >>=-eq-ok
        (load_publishers loader source.publisher_params (publisher_names source.publishers) none [])
        _ e3 in
    let (canonical, a, e5) = >>=-eq-ok (asserted loader publishers.0) _ e4 in
    let (store, first, loaded, (ps, extras, others_loaded)) =
      load_publishers-none loader source.publisher_params (publisher_names source.publishers) []
        {r = publishers} (store_named source.publishers) l in
    let built = ok_inj _ spec e5 in
    (
      loaded
          ∙ ap (λ (q : loader.Publisher). ok q)
              (asserted-some loader publishers.0 first a
                ∙ ap (λ (s : PipelineSpec loader). s.canonical_publisher) built),
      subst
          (λ (names : List String).
            Loaded loader source.publisher_params names spec.extra_publishers)
          (others-publisher_names source.publishers)
          (subst
            (Loaded loader source.publisher_params (others (publisher_names source.publishers)))
            (sym extras ∙ ap (λ (s : PipelineSpec loader). s.extra_publishers) built)
            others_loaded),
    )
