-- ===== src/Elements/Engine/Lookup.antt =====
-- What `get_resource_by_link` finds after `add_resource` and `delete_resource`.
use genesis_core.Common.{
  ◌≡◌, ◌↔◌, Bool, true, false, none, some, Option-cases, inl, inr, if◌then◌else◌, ◌&&◌, arith,
}
use genesis_core.Common.Dict
use genesis_core.Common.Dict.{Dict, get, get-put, get-put_self, put, remove}
use genesis_core.Common.Dict.Updates.{remove-put, put-put, put-get}
use genesis_core.Common.Outcome.{Outcome, ok, raised}
use genesis_core.Common.Text.{Text, text_beq, text_beq_iff, text_key, occurs}
use genesis_core.Elements.Links.{clear_parameters, colon}
use genesis_core.Elements.Links.Laws.{clear_parameters_clear}
use genesis_core.Elements.Engine.Model.{
  EngineError, value_error, key_error, Element, Resource, Namespace, element_link, element_of,
  resource_link,
}
use genesis_core.Elements.Engine.Space
use genesis_core.Elements.Engine.{
  Engine, namespace_at, add_resource, delete_resource, get_resource_by_link,
}

abbrev key : Resource → Text
key resource = element_link (element_of resource)

-- The engine with the resource in the namespace of its element.
abbrev stored : Resource → Namespace → Engine → Engine
stored resource space engine = record engine {
  namespaces =
      Dict.put (key resource)
        (record space { resources = Dict.put (resource_link resource) resource space.resources })
        engine.namespaces;
}

abbrev Stored : Resource → Engine → Engine → Type 0
Stored resource engine engine' =
    (space : Namespace) × (Dict.get (key resource) engine.namespaces ≡ some space)
    × (Dict.get (resource_link resource) space.resources ≡ none)
    × (engine' ≡ stored resource space engine)

known_stores :
    (resource : Resource) (engine engine' : Engine) (space : Namespace)
    → Dict.get (key resource) engine.namespaces ≡ some space
    → add_resource resource engine ≡ ok engine'
    → Stored resource engine engine'
unfolding add_resource namespace_at Space.add_resource
known_stores resource engine engine' space known h = (space, known, ground arith, ground arith)

pub add_resource-Stored :
    (resource : Resource) (engine engine' : Engine)
    → add_resource resource engine ≡ ok engine'
    → Stored resource engine engine'
add_resource-Stored resource engine engine' h =
    elim (Option-cases (Dict.get (key resource) engine.namespaces)) [
      | inl unknown ↦ unfold add_resource namespace_at in ground arith
      | inr (space, known) ↦ known_stores resource engine engine' space known h
    ]

abbrev pub is_link_of : Resource → Element → Text → Bool
is_link_of resource element link =
    text_beq (element_link (element_of resource)) (element_link element)
    && text_beq (resource_link resource) (clear_parameters link)

-- After `add_resource` has stored a resource, a lookup with its element and its link, parameters
-- cleared, returns that resource, and every other lookup returns or raises what it did before.
pub get_resource_by_link-add_resource :
    (resource : Resource) (element : Element) (link : Text) (engine engine' : Engine)
    → add_resource resource engine ≡ ok engine'
    → get_resource_by_link element link engine' ≡ (
        if is_link_of resource element link
        then ok resource
        else get_resource_by_link element link engine)
unfolding get_resource_by_link namespace_at Space.get_resource_by_link
get_resource_by_link-add_resource resource element link engine engine' h =
    let (space, known, absent, same) = add_resource-Stored resource engine engine' h in
    let e = element_link element in
    let l = clear_parameters link in
    ground (
      arith,
      text_beq_iff (key resource) e,
      get-put (key resource) e
          (record space { resources = Dict.put (resource_link resource) resource space.resources })
          engine.namespaces,
      get-put (resource_link resource) l resource space.resources,
    )

-- Once a resource is added, deleting it gives back the engine as it was before.
pub delete_resource-add_resource :
    (resource : Resource) (engine engine' : Engine)
    → add_resource resource engine ≡ ok engine'
    → delete_resource resource engine' ≡ ok engine
unfolding delete_resource namespace_at Space.delete_resource
delete_resource-add_resource resource engine engine' h =
    let (space, known, absent, same) = add_resource-Stored resource engine engine' h in
    let space' : Namespace = record space {
      resources = Dict.put (resource_link resource) resource space.resources;
    } in
    ground (
      arith,
      get-put_self (key resource) space' engine.namespaces,
      get-put_self (resource_link resource) resource space.resources,
      remove-put (resource_link resource) resource space.resources,
      put-put (key resource) space' space engine.namespaces,
      put-get (key resource) space engine.namespaces,
    )

abbrev pub is_found : Outcome EngineError Resource → Bool
is_found (ok r) = true
is_found (raised e) = false

-- For a resource whose link has no colon, `add_resource` raises a `KeyError` exactly when the
-- resource's element is unknown, and a `ValueError` exactly when a lookup with the element and the
-- link finds a resource.
pub add_resource_lem :
    (resource : Resource) (engine : Engine)
    → occurs colon (resource_link resource) ≡ false
    → ((add_resource resource engine ≡ raised key_error)
        ↔ (Dict.get (element_link (element_of resource)) engine.namespaces ≡ none))
      × ((add_resource resource engine ≡ raised value_error) ↔ (
          is_found (get_resource_by_link (element_of resource) (resource_link resource) engine)
          ≡ true))
unfolding add_resource get_resource_by_link namespace_at Space.add_resource
    Space.get_resource_by_link
add_resource_lem resource engine clear =
    ground (arith, clear_parameters_clear (resource_link resource) clear)
