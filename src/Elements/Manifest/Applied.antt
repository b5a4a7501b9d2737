-- ===== src/Elements/Manifest/Applied.antt =====
-- What `apply_imports`, `apply_exports` and `apply_resources` of `Manifest` leave.
use genesis_core.Common.{◌≡◌, refl, true, false, none, some, Option, arith, inl, inr, Option-cases}
use genesis_core.Common.Dict
use genesis_core.Common.Dict.{Dict, get-put}
use genesis_core.Common.Dict.Updates.{distinct, is_present}
use genesis_core.Common.Outcome.{Outcome, ok, ok_chain, is_ok, Outcome-cases}
use genesis_core.Common.Text.{Text, text_key, text_beq_iff}
use genesis_core.Elements.Reconcile.{Work, apply, start, drop_left, reconcile}
use genesis_core.Elements.Reconcile.Laws.{row_of, reconcile_lem, apply-Added, Kept}
use genesis_core.Elements.Engine.Model.{
  EngineError, Element, Resource, OwnResource, element_link, element_of, resource_link,
}
use genesis_core.Elements.Engine.Lookup.{add_resource-Stored}
use genesis_core.Elements.Engine.{
  Engine, add_resource, get_element, get_namespace, get_resource_by_export_link,
}
use genesis_core.Elements.Engine.Loading.{export_stored}
use genesis_core.Elements.Manifest.{
  ExportEntry, ExportRow, export_table, apply_exports, ImportEntry, ImportRow, import_table,
  apply_imports, resolve_import, ImportKwargs, imported_of,
}

-- The row of an export's entry: the old row's identifier stays.
abbrev export_row : Element → ExportEntry → Option ExportRow → ExportRow
export_row element entry none = record {
  uuid = entry.uuid;
  export = record { element = element; link = entry.link };
}
export_row element entry (some old) = record old {
  export = record { element = element; link = entry.link };
}

abbrev wanted_export : Element → Option ExportEntry → Option ExportRow → Option ExportRow
wanted_export element none old = none
wanted_export element (some entry) old = some (export_row element entry old)

-- When `apply_exports` returns, the element's exports are those of the manifest: under every name
-- stands the manifest's link, with the identifier of the row that had the name, or of the entry, and
-- under a name that the manifest does not have there is no row.
pub apply_exports_rows :
    (element : Element) (exports : Dict Text ExportEntry) (rows : Dict Text ExportRow)
    (engine : Engine) (done : Work Text ExportRow Engine) (name : Text)
    → distinct exports ≡ true
    → apply_exports element exports rows engine ≡ ok done
    → Dict.get name done.rows ≡ wanted_export element (Dict.get name exports) (Dict.get name rows)
apply_exports_rows element exports rows engine done name once h =
    let (found, present) =
      reconcile_lem (export_table element) (λ row e e' added k entry. refl) name exports rows engine
        done once (unfold apply_exports in h) in
    elim (Option-cases (Dict.get name exports)) [
      | inl absent ↦ ground arith
      | inr (entry, named) ↦ elim (Option-cases (Dict.get name rows)) [
        | inl new ↦ ground arith
        | inr (old, known) ↦ ground arith
      ]
    ]

abbrev Exported : Text → Engine → Type 0
Exported link engine = is_present (Dict.get link engine.resource_exports) ≡ true

export_kept : (element : Element) (link : Text) → Kept (export_table element) (Exported link)
export_kept element link row engine engine' h known =
    let (resource, found, absent, same) = export_stored row.export engine engine' h in
    ground (arith, get-put row.export.link link resource engine.resource_exports)

-- An export under a new name, with a link that the engine already exports, is not applied: an entry
-- that is renamed in the manifest is added before the row with its old name is deleted.
pub apply_exports_renamed :
    (element : Element) (exports : Dict Text ExportEntry) (rows : Dict Text ExportRow)
    (engine : Engine) (name : Text) (entry : ExportEntry)
    → Dict.get name exports ≡ some entry
    → Dict.get name rows ≡ none
    → is_present (Dict.get entry.link engine.resource_exports) ≡ true
    → is_ok (apply_exports element exports rows engine) ≡ false
apply_exports_renamed element exports rows engine name entry named new exported =
    elim (Outcome-cases (apply_exports element exports rows engine)) [
      | inl (failure, failed) ↦ ground arith
      | inr (done, h) ↦
          let table = export_table element in
          let (next, applied, _) =
            ok_chain (apply table exports (start table rows engine)) (drop_left table) {b = done}
              (unfold apply_exports reconcile in h) in
          let (v, before, after, same, added, known) =
            apply-Added table (Exported entry.link) (export_kept element entry.link) name entry
              exports (start table rows engine) next named new exported applied in
          let (resource, found, absent, _) =
            export_stored (record { element = element; link = v.link }) before after added in
          ground arith
    ]

module _ (accepted : Resource → Outcome EngineError OwnResource) where
  resolve_import_stable :
      (added : Resource) (engine engine' : Engine) (name : Text) (entry : ImportEntry)
      → add_resource added engine ≡ ok engine'
      → resolve_import accepted name entry engine' ≡ resolve_import accepted name entry engine
  unfolding resolve_import get_element get_namespace get_resource_by_export_link
  resolve_import_stable added engine engine' name entry h =
      let (space, known, absent, same) = add_resource-Stored added engine engine' h in
      ground (
        arith,
        text_beq_iff (element_link (element_of added)) entry.element,
        get-put (element_link (element_of added)) entry.element
            (record space { resources = Dict.put (resource_link added) added space.resources })
            engine.namespaces,
      )

  abbrev pub import_row : Element → Text → ImportKwargs → Option ImportRow → ImportRow
  import_row element name kwargs none = record {
    uuid = kwargs.uuid;
    name = name;
    element = element;
    from_element = kwargs.from_element;
    from_resource = kwargs.from_resource;
  }
  import_row element name kwargs (some old) = record old {
    name = name;
    element = element;
    from_element = kwargs.from_element;
    from_resource = kwargs.from_resource;
  }

  -- The rows that stand under a name of the manifest, and under another.
  abbrev ImportedFrom :
      Element → Text → Option ImportEntry → Option ImportRow → Engine → Option ImportRow → Type 0
  ImportedFrom element name none old engine row = row ≡ none
  ImportedFrom element name (some entry) old engine row =
      (kwargs : ImportKwargs) × (resolve_import accepted name entry engine ≡ ok kwargs)
      × (row ≡ some (import_row element name kwargs old))

  abbrev import_of_entry :
      Element → Text → Option ImportEntry → Option ImportRow → Engine → Option ImportRow
  import_of_entry element name none old engine = none
  import_of_entry element name (some entry) old engine =
      row_of (import_table accepted element) name old (resolve_import accepted name entry engine)

  settled_import :
      (element : Element) (name : Text) (wanted : Option ImportEntry) (old : Option ImportRow)
      (engine : Engine) (row : Option ImportRow)
      → row ≡ import_of_entry element name wanted old engine
      → is_present row ≡ is_present wanted
      → ImportedFrom element name wanted old engine row
  settled_import element name none old engine row h present = h
  settled_import element name (some entry) none engine row h present =
      elim (Outcome-cases (resolve_import accepted name entry engine)) [
        | inl (failure, failed) ↦ ground arith
        | inr (kwargs, resolved) ↦ (kwargs, resolved, ground arith)
      ]
  settled_import element name (some entry) (some old) engine row h present =
      elim (Outcome-cases (resolve_import accepted name entry engine)) [
        | inl (failure, failed) ↦ ground arith
        | inr (kwargs, resolved) ↦ (kwargs, resolved, ground arith)
      ]

  -- When `apply_imports` returns, the element's imports are those of the manifest: under every name
  -- stands a row with the element and the resource that the manifest's links gave in the engine as
  -- it was at the start, and under a name that the manifest does not have there is no row.
  pub apply_imports_rows :
      (element : Element) (imports : Dict Text ImportEntry) (rows : Dict Text ImportRow)
      (engine : Engine) (done : Work Text ImportRow Engine) (name : Text)
      → distinct imports ≡ true
      → apply_imports accepted element imports rows engine ≡ ok done
      → ImportedFrom element name
          (Dict.get name imports)
          (Dict.get name rows)
          engine
          (Dict.get name done.rows)
  apply_imports_rows element imports rows engine done name once h =
      let (found, present) =
        reconcile_lem (import_table accepted element)
          (λ row e e' added k entry. resolve_import_stable (imported_of row) e e' k entry added)
          name imports rows engine done once (unfold apply_imports in h) in
      settled_import element name (Dict.get name imports) (Dict.get name rows) engine
        (Dict.get name done.rows) (ground arith) present
