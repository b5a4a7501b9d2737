-- ===== src/Elements/Manifest.antt =====
-- `apply_imports`, `apply_resources`, `apply_exports` and `apply_element` of `Manifest` in
-- exordos_core/elements/dm/models.py. A table is the element's rows by name, which the constraints
-- of migrations/0037-manifest-indexes-815825.py keep apart; an import and an export have the only
-- kind, a resource. A new row has the identifier that `get_or_create_uuid_from_dict` gives the entry.
pub mod Resolver
pub mod Applied
mod Cases
use genesis_core.Common.{ℕ, List, [], ◌∷◌, map, ◌&&◌, ◌≡◌, true, ◌↔◌, arith}
use genesis_core.Common.Dict.{Dict, KeyType}
use genesis_core.Common.Outcome.{Outcome, ok, ◌>>=◌}
use genesis_core.Common.Text.{Text, text_key, text_beq, text_beq_iff}
use genesis_core.Elements.Json.{Json}
use genesis_core.Elements.Reconcile.{Work, Table, apply, drop_left, start, reconcile}
use genesis_core.Elements.Engine.Model.{EngineError, Element, Resource, OwnResource, own, imported}
use genesis_core.Elements.Engine.{
  Engine, Export, get_element, get_resource_by_export_link, add_resource, delete_resource,
  add_resource_by_export, delete_resource_by_export,
}
use genesis_core.Elements.Manifest.Resolver.{full_link_original}

pub record ImportEntry : Type 0 where
  pub uuid : ℕ
  pub element : Text
  pub link : Text

pub record ExportEntry : Type 0 where
  pub uuid : ℕ
  pub link : Text

pub record ResourceEntry : Type 0 where
  pub uuid : ℕ
  pub value : Json

pub record Manifest : Type 0 where
  pub uuid : ℕ
  pub name : Text
  pub requirements : Json
  pub imports : Dict Text ImportEntry
  pub resources : Dict Text (Dict Text ResourceEntry)
  pub exports : Dict Text ExportEntry

pub record ImportRow : Type 0 where
  pub uuid : ℕ
  pub name : Text
  pub element : Element
  pub from_element : Element
  pub from_resource : OwnResource

pub record ExportRow : Type 0 where
  pub uuid : ℕ
  pub export : Export

pub record ResourceRow : Type 0 where
  pub resource : OwnResource
  pub value : Json

-- `ImportedResource(element=imp.element, resource=imp.from_resource, import_name=imp.name)`
abbrev pub imported_of : ImportRow → Resource
imported_of row = imported row.element row.from_resource row.name

-- The values of the manifest's entry and the two that the engine resolves.
pub record ImportKwargs : Type 0 where
  pub uuid : ℕ
  pub from_element : Element
  pub from_resource : OwnResource

-- What the relationship `from_resource` makes of a resource of the engine is a parameter.
module _ (accepted : Resource → Outcome EngineError OwnResource) where
  unfoldable pub resolve_import : Text → ImportEntry → Engine → Outcome EngineError ImportKwargs
  unfolding get_element get_resource_by_export_link
  resolve_import name entry engine = do
    element ← get_element entry.element engine
    found ← get_resource_by_export_link entry.link engine
    resource ← accepted found
    ok (record { uuid = entry.uuid; from_element = element; from_resource = resource })

  abbrev pub import_table :
      Element → Table Text ImportEntry ImportKwargs ImportRow Engine EngineError
  import_table element = record {
    resolve = resolve_import;
    made = λ name kwargs. record {
      uuid = kwargs.uuid;
      name = name;
      element = element;
      from_element = kwargs.from_element;
      from_resource = kwargs.from_resource;
    };
    updated = λ name kwargs row. record row {
      name = name;
      element = element;
      from_element = kwargs.from_element;
      from_resource = kwargs.from_resource;
    };
    added = λ row. add_resource (imported_of row);
    deleted = λ row. delete_resource (imported_of row);
  }

  unfoldable pub apply_imports :
      Element
      → Dict Text ImportEntry
      → Dict Text ImportRow
      → Engine
      → Outcome EngineError (Work Text ImportRow Engine)
  unfolding reconcile
  apply_imports element = reconcile (import_table element)

abbrev pub export_table : Element → Table Text ExportEntry ExportEntry ExportRow Engine EngineError
export_table element = record {
  resolve = λ name entry engine. ok entry;
  made = λ name entry. record {
    uuid = entry.uuid;
    export = record { element = element; link = entry.link };
  };
  updated =
      λ name entry row. record row { export = record { element = element; link = entry.link } };
  added = λ row. add_resource_by_export row.export;
  deleted = λ row. delete_resource_by_export row.export;
}

unfoldable pub apply_exports :
    Element
    → Dict Text ExportEntry
    → Dict Text ExportRow
    → Engine
    → Outcome EngineError (Work Text ExportRow Engine)
unfolding reconcile
apply_exports element = reconcile (export_table element)

pub pair_iff : (j k : Text × Text) → ((text_beq j.0 k.0 && text_beq j.1 k.1) ≡ true) ↔ (j ≡ k)
pair_iff j k = ground (arith, text_beq_iff j.0 k.0, text_beq_iff j.1 k.1)

instance abbrev pub pair_key : KeyType (Text × Text)
pair_key = record { same = λ j k. text_beq j.0 k.0 && text_beq j.1 k.1; same_iff = pair_iff }

abbrev pub resource_table :
    Element → Table (Text × Text) ResourceEntry ResourceEntry ResourceRow Engine EngineError
resource_table element = record {
  resolve = λ key entry engine. ok entry;
  made = λ key entry. record {
    resource = record {
      uuid = entry.uuid;
      element = element;
      name = key.1;
      resource_link_prefix = key.0;
    };
    value = entry.value;
  };
  updated = λ key entry row. record {
    resource = record row.resource { element = element; resource_link_prefix = key.0 };
    value = entry.value;
  };
  added = λ row. add_resource (own row.resource);
  deleted = λ row. delete_resource (own row.resource);
}

-- The entries of one prefix, under the prefix that the resolver makes of it.
abbrev pub under : Text → Dict Text ResourceEntry → Dict (Text × Text) ResourceEntry
under prefix = map (λ entry. ((prefix, entry.0), entry.1))

-- The outer loop of `apply_resources`: a resolver for each prefix, made when its turn comes.
unfoldable pub apply_prefixes :
    Element
    → Dict Text (Dict Text ResourceEntry)
    → Work (Text × Text) ResourceRow Engine
    → Outcome EngineError (Work (Text × Text) ResourceRow Engine)
unfolding full_link_original apply
apply_prefixes element [] work = ok work
apply_prefixes element ((prefix, entries) ∷ rest) work =
    full_link_original element prefix work.engine >>= λ original.
    apply (resource_table element) (under original entries) work >>= apply_prefixes element rest

unfoldable pub apply_resources :
    Element
    → Dict Text (Dict Text ResourceEntry)
    → Dict (Text × Text) ResourceRow
    → Engine
    → Outcome EngineError (Work (Text × Text) ResourceRow Engine)
unfolding apply_prefixes
apply_resources element resources rows engine =
    apply_prefixes element resources (start (resource_table element) rows engine)
    >>= drop_left (resource_table element)

-- The rows of an element in the tables.
pub record ElementRows : Type 0 where
  pub requirements : Json
  pub imports : Dict Text ImportRow
  pub resources : Dict (Text × Text) ResourceRow
  pub exports : Dict Text ExportRow

unfoldable pub apply_element :
    (accepted : Resource → Outcome EngineError OwnResource)
    → Manifest
    → Element
    → ElementRows
    → Engine
    → Outcome EngineError (ElementRows × Engine)
unfolding apply_imports apply_resources apply_exports
apply_element accepted manifest element rows engine = do
  imports ← apply_imports accepted element manifest.imports rows.imports engine
  resources ← apply_resources element manifest.resources rows.resources imports.engine
  exports ← apply_exports element manifest.exports rows.exports resources.engine
  ok (
    record {
      requirements = manifest.requirements;
      imports = imports.rows;
      resources = resources.rows;
      exports = exports.rows;
    },
    exports.engine,
  )
