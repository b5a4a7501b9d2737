-- ===== src/Elements/Engine/Loading.antt =====
-- What `ElementEngine.load_from_database` leaves in the engine.
use genesis_core.Common.{
  ◌≡◌, refl, true, false, none, arith, List, [], ◌∷◌, Member, subst, inl, inr, Bool-cases,
}
use genesis_core.Common.Dict
use genesis_core.Common.Dict.{Dict, get-put}
use genesis_core.Common.Outcome.{Outcome, ok, ok_chain}
use genesis_core.Common.Text.{Text, text_beq_iff, text_beq_refl, text_key, occurs}
use genesis_core.Elements.Links.{clear_parameters, colon}
use genesis_core.Elements.Links.Laws.{clear_parameters_clear}
use genesis_core.Elements.Engine.Model.{
  EngineError, Element, OwnResource, Resource, own, element_link, element_of, resource_link,
}
use genesis_core.Elements.Engine.Space
use genesis_core.Elements.Engine.{
  Engine, Export, Tables, each, empty_engine, import_of, namespace_at, add_element, add_resource,
  get_resource_by_link, add_resource_by_export, store_export, get_resource_by_export_link,
  load_from_database,
}
use genesis_core.Elements.Engine.Lookup.{
  get_resource_by_link-add_resource, add_resource-Stored, is_link_of,
}
use genesis_core.Elements.Engine.Validity.{
  is_valid, adds_element, adds_resource, adds_export, run_valid,
}

module _ {A : Type 0} (step : A → Engine → Outcome EngineError Engine) (P : Engine → Type 0) where
  abbrev Keeps : Type 0
  Keeps = (a : A) (engine engine' : Engine) → step a engine ≡ ok engine' → P engine → P engine'

  each-Keeps :
      Keeps
      → (rows : List A) (engine engine' : Engine) → each step rows engine ≡ ok engine'
      → P engine
      → P engine'
  each-Keeps keeps [] engine engine' h p = let same : engine ≡ engine' = cc in subst P same p
  each-Keeps keeps (a ∷ rows) engine engine' h p =
      let (next, first, rest) = ok_chain (step a engine) (each step rows) h in
      each-Keeps keeps rows next engine' rest (keeps a engine next first p)

  each-Member :
      Keeps
      → (a : A) → ((engine engine' : Engine) → step a engine ≡ ok engine' → P engine')
      → (rows : List A) (engine engine' : Engine) → Member a rows
      → each step rows engine ≡ ok engine'
      → P engine'
  each-Member keeps a starts [] engine engine' m h = absurd m
  each-Member keeps a starts (x ∷ rows) engine engine' m h =
      let (next, first, rest) = ok_chain (step x engine) (each step rows) h in
      elim m [
        | inl same ↦
            each-Keeps keeps rows next engine' rest
              (starts engine next (subst (λ y. step y engine ≡ ok next) same first))
        | inr later ↦ each-Member keeps a starts rows next engine' later rest
      ]

abbrev Finds : Element → Text → Resource → Engine → Type 0
Finds element link resource engine = get_resource_by_link element link engine ≡ ok resource

-- A resource that is found stays when another is added.
add_resource_keeps :
    (element : Element) (link : Text) (resource added : Resource) (engine engine' : Engine)
    → add_resource added engine ≡ ok engine'
    → Finds element link resource engine
    → Finds element link resource engine'
add_resource_keeps element link resource added engine engine' h found =
    let (space, known, absent, same) = add_resource-Stored added engine engine' h in
    let now = get_resource_by_link-add_resource added element link engine engine' h in
    let e = text_beq_iff (element_link (element_of added)) (element_link element) in
    let l = text_beq_iff (resource_link added) (clear_parameters link) in
    elim (Bool-cases (is_link_of added element link)) [
      | inr other ↦ ground arith
      | inl same_link ↦
          unfold get_resource_by_link namespace_at Space.get_resource_by_link in ground arith
    ]

add_resource-Finds :
    (added : Resource) (engine engine' : Engine)
    → occurs colon (resource_link added) ≡ false
    → add_resource added engine ≡ ok engine'
    → Finds (element_of added) (resource_link added) added engine'
add_resource-Finds added engine engine' clear h = ground (
  arith,
  get_resource_by_link-add_resource added (element_of added) (resource_link added) engine engine' h,
  text_beq_refl (element_link (element_of added)),
  text_beq_refl (resource_link added),
  clear_parameters_clear (resource_link added) clear,
)

pub export_stored :
    (export : Export) (engine engine' : Engine)
    → add_resource_by_export export engine ≡ ok engine'
    → (resource : Resource) × (get_resource_by_link export.element export.link engine ≡ ok resource)
      × (Dict.get export.link engine.resource_exports ≡ none)
      × (engine' ≡ record engine {
        resource_exports = Dict.put export.link resource engine.resource_exports;
      })
unfolding add_resource_by_export
export_stored export engine engine' h =
    let (resource, found, stored) =
      ok_chain (get_resource_by_link export.element export.link engine) (store_export export engine)
        h in
    (resource, found, ground arith, ground arith)

add_export_keeps :
    (element : Element) (link : Text) (resource : Resource) (export : Export)
    (engine engine' : Engine)
    → add_resource_by_export export engine ≡ ok engine'
    → Finds element link resource engine
    → Finds element link resource engine'
add_export_keeps element link resource export engine engine' h found =
    let (exported, _, absent, same) = export_stored export engine engine' h in
    unfold get_resource_by_link namespace_at in ground arith

-- The runs of `load_from_database`, one for each table.
Runs : Tables → Engine → Type 0
Runs tables engine =
    (with_elements with_imports with_resources : Engine) × (each add_element tables.elements
        empty_engine
      ≡ ok with_elements)
    × (each (λ row. add_resource (import_of row)) tables.imports with_elements ≡ ok with_imports)
    × (each (λ r. add_resource (own r)) tables.resources with_imports ≡ ok with_resources)
    × (each add_resource_by_export tables.exports with_resources ≡ ok engine)

load_from_database-Runs :
    (tables : Tables) (engine : Engine) → load_from_database tables ≡ ok engine → Runs tables engine
unfolding load_from_database Runs
load_from_database-Runs tables engine h =
    let (e, he, h1) = ok_chain (each add_element tables.elements empty_engine) _ h in
    let (i, hi, h2) = ok_chain (each (λ row. add_resource (import_of row)) tables.imports e) _ h1 in
    let (r, hr, h3) = ok_chain (each (λ r. add_resource (own r)) tables.resources i) _ h2 in
    (e, i, r, he, hi, hr, h3)

-- When `load_from_database` returns, a lookup with the element and the link of an own resource that
-- was read, the link being without a colon, returns that resource.
pub load_from_database_finds :
    (tables : Tables) (engine : Engine) (r : OwnResource)
    → load_from_database tables ≡ ok engine
    → Member r tables.resources
    → occurs colon (resource_link (own r)) ≡ false
    → get_resource_by_link r.element (resource_link (own r)) engine ≡ ok (own r)
unfolding Runs
load_from_database_finds tables engine r h m clear =
    let (elements, imports, resources, he, hi, hr, hx) = load_from_database-Runs tables engine h in
    let P : Engine → Type 0 = Finds r.element (resource_link (own r)) (own r) in
    let loaded =
      each-Member (λ x. add_resource (own x)) P
        (λ x e e'. add_resource_keeps r.element (resource_link (own r)) (own r) (own x) e e') r
        (λ e e'. add_resource-Finds (own r) e e' clear) tables.resources imports resources m hr in
    each-Keeps add_resource_by_export P
      (λ x e e'. add_export_keeps r.element (resource_link (own r)) (own r) x e e') tables.exports
      resources engine hx loaded

abbrev Resolves : Export → Engine → Type 0
Resolves export engine =
    (resource : Resource) × (get_resource_by_link export.element export.link engine ≡ ok resource)
    × (get_resource_by_export_link export.link engine ≡ ok resource)

add_export_Resolves :
    (export added : Export) (engine engine' : Engine)
    → add_resource_by_export added engine ≡ ok engine'
    → Resolves export engine
    → Resolves export engine'
add_export_Resolves export added engine engine' h (resource, found, exported) =
    let (other, _, absent, same) = export_stored added engine engine' h in
    let changed = get-put added.link export.link other engine.resource_exports in
    (
      resource,
      add_export_keeps export.element export.link resource added engine engine' h found,
      unfold get_resource_by_export_link in ground (arith, text_beq_iff added.link export.link),
    )

-- When `load_from_database` returns, every export that was read gives the resource that a lookup
-- with its element and its link returns.
pub load_from_database_exports :
    (tables : Tables) (engine : Engine) (export : Export)
    → load_from_database tables ≡ ok engine
    → Member export tables.exports
    → (resource : Resource) × (get_resource_by_link export.element export.link engine ≡ ok resource)
      × (get_resource_by_export_link export.link engine ≡ ok resource)
unfolding Runs
load_from_database_exports tables engine export h m =
    let (elements, imports, resources, he, hi, hr, hx) = load_from_database-Runs tables engine h in
    each-Member add_resource_by_export (Resolves export) (add_export_Resolves export) export
      (λ e e' h'.
        let (resource, found, absent, same) = export_stored export e e' h' in
        (
          resource,
          add_export_keeps export.element export.link resource export e e' h' found,
          unfold get_resource_by_export_link in
              ground (
                arith,
                get-put export.link export.link resource e.resource_exports,
                text_beq_refl export.link,
              ),
        ))
      tables.exports resources engine m hx

-- When `load_from_database` returns, each namespace stands under the link of its element and each
-- resource under its own link, in the namespace of its element.
pub load_from_database_valid :
    (tables : Tables) (engine : Engine)
    → load_from_database tables ≡ ok engine
    → is_valid engine ≡ true
unfolding Runs
load_from_database_valid tables engine h =
    let (elements, imports, resources, he, hi, hr, hx) = load_from_database-Runs tables engine h in
    let P : Engine → Type 0 = λ e. is_valid e ≡ true in
    let p1 =
      each-Keeps add_element P (λ x. run_valid (adds_element x)) tables.elements empty_engine
        elements he refl in
    let p2 =
      each-Keeps (λ row. add_resource (import_of row)) P
        (λ row. run_valid (adds_resource (import_of row))) tables.imports elements imports hi p1 in
    let p3 =
      each-Keeps (λ r. add_resource (own r)) P (λ r. run_valid (adds_resource (own r)))
        tables.resources imports resources hr p2 in
    each-Keeps add_resource_by_export P (λ x. run_valid (adds_export x)) tables.exports resources
      engine hx p3
