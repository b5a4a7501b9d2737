-- ===== src/Elements/Engine.antt =====
-- `ElementEngine` of exordos_core/elements/dm/models.py.
-- Each method returns the new engine; the rows that `load_from_database` reads are arguments.
pub mod Model
pub mod Space
pub mod Lookup
pub mod Validity
pub mod Loading
use genesis_core.Common.{
  ℕ, Bool, true, false, Option, none, some, List, [], ◌∷◌, ◌++◌, map, if◌then◌else◌,
}
use genesis_core.Common.Dict
use genesis_core.Common.Dict.{Dict}
use genesis_core.Common.Outcome.{Outcome, ok, raised, ◌>>=◌}
use genesis_core.Common.Text.{Text, codes, text_key}
use genesis_core.Elements.Engine.Model.{
  EngineError, value_error, key_error, namespace_not_found, Element, OwnResource, Resource, own,
  imported, Namespace, element_link, element_of, resource_link,
}
use genesis_core.Elements.Engine.Space

pub record Export : Type 0 where
  pub element : Element
  pub link : Text

pub record Engine : Type 0 where
  pub namespaces : Dict Text Namespace
  pub resource_exports : Dict Text Resource

abbrev pub empty_engine : Engine
empty_engine = record { namespaces = []; resource_exports = [] }

-- `self._namespaces[link]`
unfoldable pub namespace_at : Text → Engine → Outcome EngineError Namespace
namespace_at link engine = elim (Dict.get link engine.namespaces) [
  | none ↦ raised key_error
  | some space ↦ ok space
]

abbrev pub set_namespace : Text → Namespace → Engine → Engine
set_namespace link space engine = record engine {
  namespaces = Dict.put link space engine.namespaces;
}

unfoldable pub get_namespace : Text → Engine → Outcome EngineError Namespace
get_namespace name engine = elim (Dict.get name engine.namespaces) [
  | none ↦ raised namespace_not_found
  | some space ↦ ok space
]

-- The `ValueError` for an unknown element is made and not raised, so the lookup raises instead.
unfoldable pub add_resource : Resource → Engine → Outcome EngineError Engine
unfolding namespace_at Space.add_resource
add_resource resource engine = do
  space ← namespace_at (element_link (element_of resource)) engine
  space' ← Space.add_resource resource space
  ok (set_namespace (element_link (element_of resource)) space' engine)

unfoldable pub delete_resource : Resource → Engine → Outcome EngineError Engine
unfolding namespace_at Space.delete_resource
delete_resource resource engine = do
  space ← namespace_at (element_link (element_of resource)) engine
  space' ← Space.delete_resource resource space
  ok (set_namespace (element_link (element_of resource)) space' engine)

-- The text of the `ValueError` for an unknown element looks the element up, so that raises.
unfoldable pub get_resource_by_link : Element → Text → Engine → Outcome EngineError Resource
unfolding namespace_at Space.get_resource_by_link
get_resource_by_link element link engine = do
  space ← namespace_at (element_link element) engine
  Space.get_resource_by_link link space

unfoldable pub add_element : Element → Engine → Outcome EngineError Engine
add_element element engine = elim (Dict.get (element_link element) engine.namespaces) [
  | some _ ↦ raised value_error
  | none ↦
      ok
        (set_namespace (element_link element) (record { element = element; resources = [] }) engine)
]

unfoldable pub get_element : Text → Engine → Outcome EngineError Element
unfolding get_namespace
get_element link engine = do space ← get_namespace link engine; ok space.element

unfoldable pub remove_element : Element → Engine → Outcome EngineError Engine
remove_element element engine = elim (Dict.get (element_link element) engine.namespaces) [
  | none ↦ raised value_error
  | some _ ↦
      ok (record engine { namespaces = Dict.remove (element_link element) engine.namespaces })
]

abbrev store_export : Export → Engine → Resource → Outcome EngineError Engine
store_export export engine resource = elim (Dict.get export.link engine.resource_exports) [
  | some _ ↦ raised value_error
  | none ↦
      ok
        (record engine { resource_exports = Dict.put export.link resource engine.resource_exports })
]

unfoldable pub add_resource_by_export : Export → Engine → Outcome EngineError Engine
unfolding get_resource_by_link
add_resource_by_export export engine =
    get_resource_by_link export.element export.link engine >>= store_export export engine

unfoldable pub delete_resource_by_export : Export → Engine → Outcome EngineError Engine
delete_resource_by_export export engine = elim (Dict.get export.link engine.resource_exports) [
  | none ↦ raised key_error
  | some _ ↦
      ok (record engine { resource_exports = Dict.remove export.link engine.resource_exports })
]

unfoldable pub get_resource_by_export_link : Text → Engine → Outcome EngineError Resource
get_resource_by_export_link link engine = elim (Dict.get link engine.resource_exports) [
  | none ↦ raised value_error
  | some resource ↦ ok resource
]

abbrev pub each :
    {A : Type 0}
    → (A → Engine → Outcome EngineError Engine)
    → List A
    → Engine
    → Outcome EngineError Engine
each step [] engine = ok engine
each step (a ∷ rest) engine = step a engine >>= each step rest

-- The rows of the tables; every import and export is of the only kind, a resource.
pub record Tables : Type 0 where
  pub elements : List Element
  pub imports : List (Element × OwnResource × Text)
  pub resources : List OwnResource
  pub exports : List Export

abbrev import_of : Element × OwnResource × Text → Resource
import_of (element, r, name) = imported element r name

unfoldable pub load_from_database : Tables → Outcome EngineError Engine
unfolding add_element add_resource add_resource_by_export
load_from_database tables = do
  with_elements ← each add_element tables.elements empty_engine
  with_imports ← each (λ row. add_resource (import_of row)) tables.imports with_elements
  with_resources ← each (λ r. add_resource (own r)) tables.resources with_imports
  each add_resource_by_export tables.exports with_resources
