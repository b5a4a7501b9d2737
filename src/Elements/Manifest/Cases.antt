-- ===== src/Elements/Manifest/Cases.antt =====
-- Manifests applied to an engine, and the theorems at them.
use genesis_core.Common.{
  ◌≡◌, ◌+◌, ◌==◌, ◌&&◌, ap, not, arith, if◌then◌else◌, refl, Bool, false, true, ℕ, none, some,
  Option, List, [], ◌∷◌,
}
use genesis_core.Common.Dict
use genesis_core.Common.Dict.{Dict}
use genesis_core.Common.Outcome.{Outcome, ok, raised, is_ok, ◌>>=◌}
use genesis_core.Common.Text.{Text, codes, text_key}
use genesis_core.Elements.Json.{Json, number}
use genesis_core.Elements.Actualize.{
  Actual, State, SameRow, has_target, actualize, target_is_current, actualize_settles,
}
use genesis_core.Elements.Reconcile.{Work}
use genesis_core.Elements.Engine.Model.{
  EngineError, type_error, Element, OwnResource, Resource, own, imported,
}
use genesis_core.Elements.Engine.{Engine}
use genesis_core.Elements.Manifest.{
  ExportEntry, ExportRow, ImportEntry, ImportRow, apply_exports, apply_imports, resolve_import,
}
use genesis_core.Elements.Manifest.Resolver.{full_link_original}
use genesis_core.Elements.Manifest.Applied.{apply_exports_rows, apply_exports_renamed}

abbrev core : Element
core = record { uuid = 1; name = codes "core" }

abbrev app : Element
app = record { uuid = 2; name = codes "app" }

abbrev user : OwnResource
user = record {
  uuid = 3;
  element = core;
  name = codes "u";
  resource_link_prefix = codes "$core.users";
}

abbrev user_link : Text
user_link = codes "$core.users.$u"

abbrev engine_with : Dict Text Resource → Engine
engine_with exports = record {
  namespaces =
      (codes "$core", record { element = core; resources = (user_link, own user) ∷ [] })
      ∷ (codes "$app", record { element = app; resources = [] })
      ∷ [];
  resource_exports = exports;
}

abbrev exporting : Engine
exporting = engine_with ((user_link, own user) ∷ [])

-- A prefix with two names resolves to the link of the resource, and keeps what follows it.
resolve_prefix :
    full_link_original core (codes "$core.users.$u.keys:x") exporting
    ≡ ok (codes "$core.users.$u.keys:x")
unfolding full_link_original genesis_core.Common.Text.split genesis_core.Elements.Links.before_colon
    Dict.get genesis_core.Elements.Links.clear_parameters genesis_core.Common.Text.map_last
    genesis_core.Elements.Engine.Model.resource_link
resolve_prefix = refl

abbrev row : ℕ → Text → ExportRow
row uuid link = record { uuid = uuid; export = record { element = core; link = link } }

abbrev entry : ExportEntry
entry = record { uuid = 7; link = user_link }

abbrev exported : Work Text ExportRow Engine
exported = record {
  rows = (codes "user", row 7 user_link) ∷ [];
  left = (codes "name", row 6 (codes "$core.users.$u:name")) ∷ [];
  engine = exporting;
}

export_user :
    apply_exports core
      ((codes "user", entry) ∷ [])
      ((codes "name", row 6 (codes "$core.users.$u:name")) ∷ [])
      (engine_with ((codes "$core.users.$u:name", own user) ∷ []))
    ≡ ok exported
unfolding apply_exports Dict.get genesis_core.Elements.Engine.add_resource_by_export
    genesis_core.Elements.Links.clear_parameters genesis_core.Common.Text.join
    genesis_core.Common.Text.map_last genesis_core.Common.Text.split
    genesis_core.Elements.Links.before_colon genesis_core.Elements.Engine.delete_resource_by_export
    Dict.put Dict.remove
export_user = refl

apply_exports_rows_example : Dict.get (codes "user") exported.rows ≡ some (row 7 user_link)
unfolding Dict.get
apply_exports_rows_example =
    apply_exports_rows core ((codes "user", entry) ∷ [])
      ((codes "name", row 6 (codes "$core.users.$u:name")) ∷ [])
      (engine_with ((codes "$core.users.$u:name", own user) ∷ [])) exported (codes "user") refl
      export_user

apply_exports_renamed_example :
    is_ok (
      apply_exports core
        ((codes "user", entry) ∷ [])
        ((codes "name", row 6 user_link) ∷ [])
        exporting)
    ≡ false
unfolding Dict.get
apply_exports_renamed_example =
    apply_exports_renamed core ((codes "user", entry) ∷ []) ((codes "name", row 6 user_link) ∷ [])
      exporting (codes "user") entry refl refl refl

abbrev accepted : Resource → Outcome EngineError OwnResource
accepted (own r) = ok r
accepted (imported element r name) = raised type_error

abbrev import_entry : ImportEntry
import_entry = record { uuid = 8; element = codes "$core"; link = user_link }

abbrev user_import : ImportRow
user_import = record {
  uuid = 8;
  name = codes "me";
  element = app;
  from_element = core;
  from_resource = user;
}

abbrev imported_done : Work Text ImportRow Engine
imported_done = record {
  rows = (codes "me", user_import) ∷ [];
  left = [];
  engine = record exporting {
    namespaces =
        (codes "$core", record { element = core; resources = (user_link, own user) ∷ [] })
        ∷ (
          codes "$app",
          record {
            element = app;
            resources = (codes "$app.imports.$me", imported app user (codes "me")) ∷ [];
          },
        )
        ∷ [];
  };
}

import_user :
    apply_imports accepted app ((codes "me", import_entry) ∷ []) [] exporting ≡ ok imported_done
unfolding apply_imports resolve_import Dict.get genesis_core.Elements.Engine.add_resource Dict.put
    genesis_core.Elements.Engine.Model.resource_link
import_user = refl

abbrev hash : Json → ℕ
hash (number n) = n
hash _ = 0

abbrev fresh_state : State
fresh_state = record { actual = none; target = none; full_hash = 0; updated_at = 4 }

abbrev both_or_none : Bool → Bool → Bool
both_or_none a b = if a then b else not b

abbrev has_actual : State → Bool
has_actual state = elim state.actual [ none ↦ false | some _ ↦ true ]

-- A row with another column is stored three ticks later.
abbrev stamp : State → State → ℕ
stamp old new =
    if (old.full_hash == new.full_hash)
      && both_or_none (has_actual old) (has_actual new)
      && both_or_none (has_target old) (has_target new)
    then old.updated_at
    else old.updated_at + 3

both_or_none_refl : (a : Bool) → both_or_none a a ≡ true
both_or_none_refl true = refl
both_or_none_refl false = refl

stamp_keeps : (old new : State) → SameRow old new → stamp old new ≡ old.updated_at
stamp_keeps old new (actual, full_hash, target) =
    let has : has_actual old ≡ has_actual new =
      ap (λ (a : Option Actual). elim a [ none ↦ false | some _ ↦ true ]) actual in
    rw
      (
        has,
        target,
        full_hash,
        both_or_none_refl (has_actual new),
        both_or_none_refl (has_target new),
      )
      (ground arith)

actualize_settles_example :
    (settled : State) × ((actualize hash stamp (ok (number 5)) none fresh_state
        >>= actualize hash stamp (ok (number 5)) none)
      ≡ ok settled)
    × (actualize hash stamp (ok (number 5)) none settled ≡ ok settled)
    × (target_is_current hash stamp (number 5) settled settled.target ≡ true)
actualize_settles_example = actualize_settles hash stamp stamp_keeps (number 5) none fresh_state
