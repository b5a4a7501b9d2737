-- ===== src/Elements/Engine/Validity.antt =====
-- The links under which the engine keeps elements and resources, through every operation.
use genesis_core.Common.{◌≡◌, Bool, true, some, ◌&&◌, arith, [], inl, inr, Option-cases}
use genesis_core.Common.Dict
use genesis_core.Common.Dict.{Dict, get-put}
use genesis_core.Common.Dict.Updates.{
  all_entries, all_entries-get, all_entries-put, all_entries-remove,
}
use genesis_core.Common.Outcome.{Outcome, ok, ok_chain}
use genesis_core.Common.Text.{Text, text_beq, text_beq_iff, text_beq_refl, text_key}
use genesis_core.Elements.Links.{clear_parameters}
use genesis_core.Elements.Engine.Model.{
  EngineError, Element, Resource, Namespace, element_link, element_of, resource_link,
}
use genesis_core.Elements.Engine.Space
use genesis_core.Elements.Engine.{
  Engine, Export, namespace_at, add_element, remove_element, add_resource, delete_resource,
  get_resource_by_link, add_resource_by_export, delete_resource_by_export, store_export,
}
use genesis_core.Elements.Engine.Lookup.{add_resource-Stored}

abbrev entry_valid : Text → Text → Resource → Bool
entry_valid space link resource =
    text_beq link (resource_link resource) && text_beq space (element_link (element_of resource))

abbrev space_valid : Text → Namespace → Bool
space_valid link space =
    text_beq link (element_link space.element) && all_entries (entry_valid link) space.resources

-- Namespaces stand under their element's link, and their resources under their own.
abbrev pub is_valid : Engine → Bool
is_valid engine = all_entries space_valid engine.namespaces

-- In an engine whose entries stand under their links, what a lookup returns has the link that was
-- asked for, parameters cleared, and an element with the link of the one that was asked for.
pub get_resource_by_link_sound :
    (element : Element) (link : Text) (engine : Engine) (resource : Resource)
    → is_valid engine ≡ true
    → get_resource_by_link element link engine ≡ ok resource
    → (resource_link resource ≡ clear_parameters link)
      × (element_link (element_of resource) ≡ element_link element)
get_resource_by_link_sound element link engine resource valid h =
    let (space, known, found) =
      ok_chain (namespace_at (element_link element) engine) (Space.get_resource_by_link link)
        {b = resource} (unfold get_resource_by_link in h) in
    let known' : Dict.get (element_link element) engine.namespaces ≡ some space =
      unfold namespace_at in ground arith in
    let found' : Dict.get (clear_parameters link) space.resources ≡ some resource =
      unfold Space.get_resource_by_link in ground arith in
    let space_ok =
      all_entries-get space_valid (element_link element) space engine.namespaces valid known' in
    let entry_ok =
      all_entries-get (entry_valid (element_link element)) (clear_parameters link) resource
        space.resources (ground arith) found' in
    ground (
      arith,
      text_beq_iff (clear_parameters link) (resource_link resource),
      text_beq_iff (element_link element) (element_link (element_of resource)),
    )

add_element_valid :
    (element : Element) (engine engine' : Engine)
    → add_element element engine ≡ ok engine'
    → is_valid engine ≡ true
    → is_valid engine' ≡ true
unfolding add_element
add_element_valid element engine engine' h valid = ground (
  arith,
  text_beq_refl (element_link element),
  all_entries-put space_valid (element_link element) (record { element = element; resources = [] })
      engine.namespaces valid,
)

remove_element_valid :
    (element : Element) (engine engine' : Engine)
    → remove_element element engine ≡ ok engine'
    → is_valid engine ≡ true
    → is_valid engine' ≡ true
unfolding remove_element
remove_element_valid element engine engine' h valid =
    ground (arith, all_entries-remove space_valid (element_link element) engine.namespaces valid)

add_resource_valid :
    (resource : Resource) (engine engine' : Engine)
    → add_resource resource engine ≡ ok engine'
    → is_valid engine ≡ true
    → is_valid engine' ≡ true
add_resource_valid resource engine engine' h valid =
    let (space, known, absent, same) = add_resource-Stored resource engine engine' h in
    let k = element_link (element_of resource) in
    let space_ok = all_entries-get space_valid k space engine.namespaces valid known in
    let resources_ok =
      all_entries-put (entry_valid k) (resource_link resource) resource space.resources
        (ground arith) (ground (arith, text_beq_refl k, text_beq_refl (resource_link resource))) in
    let space' : Namespace = record space {
      resources = Dict.put (resource_link resource) resource space.resources;
    } in
    ground (arith, all_entries-put space_valid k space' engine.namespaces valid)

delete_resource_valid :
    (resource : Resource) (engine engine' : Engine)
    → delete_resource resource engine ≡ ok engine'
    → is_valid engine ≡ true
    → is_valid engine' ≡ true
delete_resource_valid resource engine engine' h valid =
    let k = element_link (element_of resource) in
    elim (Option-cases (Dict.get k engine.namespaces)) [
      | inl unknown ↦ unfold delete_resource namespace_at in ground arith
      | inr (space, known) ↦
          let space_ok = all_entries-get space_valid k space engine.namespaces valid known in
          let resources_ok =
            all_entries-remove (entry_valid k) (resource_link resource) space.resources
              (ground arith) in
          let space' : Namespace = record space {
            resources = Dict.remove (resource_link resource) space.resources;
          } in
          let kept = all_entries-put space_valid k space' engine.namespaces valid (ground arith) in
          unfold delete_resource namespace_at Space.delete_resource in ground arith
    ]

export_kept :
    (export : Export) (engine engine' : Engine)
    → add_resource_by_export export engine ≡ ok engine'
    → engine'.namespaces ≡ engine.namespaces
unfolding add_resource_by_export
export_kept export engine engine' h =
    let (resource, found, stored) =
      ok_chain (get_resource_by_link export.element export.link engine) (store_export export engine)
        h in
    ground arith

pub data Operation : Type 0 where
  adds_element removes_element : Element → Operation
  adds_resource deletes_resource : Resource → Operation
  adds_export deletes_export : Export → Operation

abbrev pub run : Operation → Engine → Outcome EngineError Engine
run (adds_element element) = add_element element
run (removes_element element) = remove_element element
run (adds_resource resource) = add_resource resource
run (deletes_resource resource) = delete_resource resource
run (adds_export export) = add_resource_by_export export
run (deletes_export export) = delete_resource_by_export export

-- Every method of the engine that returns leaves each namespace under the link of its element and
-- each resource under its own link, in the namespace of its element, if they stood so before.
pub run_valid :
    (operation : Operation) (engine engine' : Engine)
    → run operation engine ≡ ok engine'
    → is_valid engine ≡ true
    → is_valid engine' ≡ true
run_valid (adds_element element) engine engine' h valid =
    add_element_valid element engine engine' h valid
run_valid (removes_element element) engine engine' h valid =
    remove_element_valid element engine engine' h valid
run_valid (adds_resource resource) engine engine' h valid =
    add_resource_valid resource engine engine' h valid
run_valid (deletes_resource resource) engine engine' h valid =
    delete_resource_valid resource engine engine' h valid
run_valid (adds_export export) engine engine' h valid =
    ground (arith, export_kept export engine engine' h)
run_valid (deletes_export export) engine engine' h valid =
    unfold delete_resource_by_export in ground arith
