-- ===== src/Elements/Engine/Model.antt =====
-- `Element`, `Resource`, `ImportedResource` and `Namespace` of exordos_core/elements/dm/models.py,
-- as far as the engine reads them.
use genesis_core.Common.{ℕ, ◌∷◌, ◌++◌}
use genesis_core.Common.Dict.{Dict}
use genesis_core.Common.Text.{Text, codes}

-- `ValueError`, `KeyError`, `TypeError` and `NamespaceNotFound`.
pub data EngineError : Type 0 where
  value_error key_error type_error namespace_not_found : EngineError

pub record Element : Type 0 where
  pub uuid : ℕ
  pub name : Text

-- f"${self.name}"
abbrev pub element_link : Element → Text
element_link element = b'$' ∷ element.name

pub record OwnResource : Type 0 where
  pub uuid : ℕ
  pub element : Element
  pub name : Text
  pub resource_link_prefix : Text

-- A `Resource`, or an `ImportedResource` that stands for one under a name of its own.
pub data Resource : Type 0 where
  own : OwnResource → Resource
  imported : (element : Element) (resource : OwnResource) (import_name : Text) → Resource

abbrev pub element_of : Resource → Element
element_of (own r) = r.element
element_of (imported element r name) = element

-- f"{self.resource_link_prefix}.${self.name}" and f"{self.element.link}.imports.${self.name}"
unfoldable pub resource_link : Resource → Text
resource_link (own r) = r.resource_link_prefix ++ b'.' ∷ b'$' ∷ r.name
resource_link (imported element r name) = element_link element ++ (codes ".imports.$" ++ name)

pub record Namespace : Type 0 where
  pub element : Element
  pub resources : Dict Text Resource
