-- ===== src/Registry/Load.antt =====
-- What a loaded registry holds.
use null.Prelude.{
  String, ◌≡◌, ◌≢◌, refl, sym, ap, ◌∙◌, false, some, List, [], ◌∷◌, ◌++◌, All, append-nil,
  append_assoc, arith, inl, inr,
}
use null.Dict.{
  lookup, contains, insert, values, lookup-insert, lookup-insert_self, lookup-insert_ne,
}
use null.Errors.{ok, Result-cases}
use null.Registry.{
  SourceConfig, SourceRegistry, validate, seen_before, load_from, load, all_sources, get_source,
}

-- The ids that were seen are the keys of the registry.
abbrev Seen : List String → SourceRegistry → Type 0
Seen seen store = (id : String) → contains id store ≡ seen_before id seen

new_registry : Seen [] []
unfolding contains lookup
new_registry id = refl

values-insert_new :
    (id : String) (source : SourceConfig) (store : SourceRegistry)
    → contains id store ≡ false
    → values (insert id source store) ≡ values store ++ source ∷ []
unfolding contains insert values lookup
values-insert_new id source [] h = refl
values-insert_new id source ((j, v) ∷ store) h = ground (arith, values-insert_new id source store)

Seen-insert :
    (seen : List String) (source : SourceConfig) (store : SourceRegistry)
    → Seen seen store
    → Seen (source.id ∷ seen) (insert source.id source store)
unfolding contains
Seen-insert seen source store h id = ground (arith, lookup-insert source.id id source store, h id)

load_from-next :
    (seen : List String) (source : SourceConfig) (sources : List SourceConfig)
    (store store' : SourceRegistry)
    → load_from seen (source ∷ sources) store ≡ (ok tt, store')
    → (seen_before source.id seen ≡ false)
      × (load_from (source.id ∷ seen) sources (insert source.id source store) ≡ (ok tt, store'))
unfolding load_from
load_from-next seen source sources store store' e = ground arith

load_from-done :
    (seen : List String) (store store' : SourceRegistry)
    → load_from seen [] store ≡ (ok tt, store')
    → store ≡ store'
unfolding load_from
load_from-done seen store store' e = cc

other_id :
    (id : String) (source : SourceConfig) (store : SourceRegistry) {kept : SourceConfig}
    → lookup id store ≡ some kept
    → contains source.id store ≡ false
    → source.id ≢ id
unfolding contains
other_id id source store found new same = ground (arith, found, new, same)

-- The sources that are stored stay, if the loop ends well.
load_from_keeps :
    (seen : List String) (sources : List SourceConfig) (store store' : SourceRegistry) (id : String)
    {kept : SourceConfig}
    → Seen seen store
    → lookup id store ≡ some kept
    → load_from seen sources store ≡ (ok tt, store')
    → lookup id store' ≡ some kept
load_from_keeps seen [] store store' id h found e = rw (← load_from-done seen store store' e) found
load_from_keeps seen (source ∷ sources) store store' id {kept} h found e =
    let (new, rest) = load_from-next seen source sources store store' e in
    load_from_keeps (source.id ∷ seen) sources (insert source.id source store) store' id
      {kept = kept} (Seen-insert seen source store h)
      (lookup-insert_ne source.id id source store
          (other_id id source store {kept = kept} found (h source.id ∙ new))
        ∙ found)
      rest

load_from_lem :
    (seen : List String) (sources : List SourceConfig) (store store' : SourceRegistry)
    → Seen seen store
    → load_from seen sources store ≡ (ok tt, store')
    → (values store' ≡ values store ++ sources)
      × All (λ source. lookup source.id store' ≡ some source) sources
load_from_lem seen [] store store' h e =
    (ap values (sym (load_from-done seen store store' e)) ∙ sym (append-nil (values store)), tt)
load_from_lem seen (source ∷ sources) store store' h e =
    let (new, rest) = load_from-next seen source sources store store' e in
    let next = insert source.id source store in
    let h' = Seen-insert seen source store h in
    let (in_order, found) = load_from_lem (source.id ∷ seen) sources next store' h' rest in
    (
      in_order
          ∙ ap (λ l. l ++ sources) (values-insert_new source.id source store (h source.id ∙ new))
          ∙ append_assoc (values store) (source ∷ []) sources,
      (
        load_from_keeps (source.id ∷ seen) sources next store' source.id {kept = source} h'
            (lookup-insert_self source.id source store) rest,
        found,
      ),
    )

-- What validation returns is what it was given.
validate-ok : (sources valid : List SourceConfig) → validate sources ≡ ok valid → valid ≡ sources
unfolding validate
validate-ok [] valid e = cc
validate-ok (source ∷ sources) valid e = elim (Result-cases (validate sources)) [
  | inl (rest, same) ↦ ground (arith, same, validate-ok sources rest same)
  | inr (failure, failed) ↦ ground (arith, failed)
]

load-validated :
    (sources : List SourceConfig) (store : SourceRegistry)
    → load sources [] ≡ (ok tt, store)
    → load_from [] sources [] ≡ (ok tt, store)
unfolding load
load-validated sources store e = elim (Result-cases (validate sources)) [
  | inl (valid, same) ↦ ground (arith, same, validate-ok sources valid same)
  | inr (failure, failed) ↦ ground (arith, failed)
]

get_source-found :
    (id : String) (store : SourceRegistry) {source : SourceConfig}
    → lookup id store ≡ some source
    → get_source id store ≡ ok source
unfolding get_source
get_source-found id store found = ground (arith, found)

each_found :
    (sources : List SourceConfig) (store : SourceRegistry)
    → All (λ source. lookup source.id store ≡ some source) sources
    → All (λ source. get_source source.id store ≡ ok source) sources
each_found [] store h = tt
each_found (source ∷ sources) store h =
    (get_source-found source.id store h.0, each_found sources store h.1)

-- A file that loads into a new registry: `all` lists its sources in their order, and `get` finds
-- each of them by its id. So no two of them have the same id.
pub load_lem :
    (sources : List SourceConfig) (store : SourceRegistry)
    → load sources [] ≡ (ok tt, store)
    → (all_sources store ≡ sources) × All (λ source. get_source source.id store ≡ ok source) sources
unfolding values
load_lem sources store e =
    let (in_order, found) =
      load_from_lem [] sources [] store new_registry (load-validated sources store e) in
    (in_order, each_found sources store found)
