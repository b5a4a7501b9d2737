-- ===== src/Elements/Engine/Space.antt =====
-- The methods of `Namespace` of exordos_core/elements/dm/models.py.
use genesis_core.Common.{none, some}
use genesis_core.Common.Dict
use genesis_core.Common.Outcome.{Outcome, ok, raised}
use genesis_core.Common.Text.{Text, text_key}
use genesis_core.Elements.Links.{clear_parameters}
use genesis_core.Elements.Engine.Model.{
  EngineError, value_error, Namespace, Resource, resource_link,
}

unfoldable pub add_resource : Resource → Namespace → Outcome EngineError Namespace
add_resource resource space = elim (Dict.get (resource_link resource) space.resources) [
  | some _ ↦ raised value_error
  | none ↦
      ok (record space { resources = Dict.put (resource_link resource) resource space.resources })
]

unfoldable pub delete_resource : Resource → Namespace → Outcome EngineError Namespace
delete_resource resource space = elim (Dict.get (resource_link resource) space.resources) [
  | none ↦ raised value_error
  | some _ ↦ ok (record space { resources = Dict.remove (resource_link resource) space.resources })
]

unfoldable pub get_resource_by_link : Text → Namespace → Outcome EngineError Resource
get_resource_by_link link space = elim (Dict.get (clear_parameters link) space.resources) [
  | none ↦ raised value_error
  | some resource ↦ ok resource
]
