-- ===== src/Elements/Cases.antt =====
-- Inputs on which the engine of exordos_core/elements runs, and the theorems at them.
use genesis_core.Common.{
  ℕ, ◌≡◌, refl, true, ◌↔◌, none, List, [], ◌∷◌, ◌++◌, inl, inr, Member, if◌then◌else◌,
}
use genesis_core.Common.Dict
use genesis_core.Common.Outcome.{ok}
use genesis_core.Common.Text.{Text, codes, split, join, text_key, occurs}
use genesis_core.Elements.Links.{clear_parameters, location, parameter, colon, dot}
use genesis_core.Elements.Engine.Model.{Element, OwnResource, Resource, own, resource_link}
use genesis_core.Elements.Engine.{
  Engine, Tables, add_resource, get_resource_by_link, get_resource_by_export_link,
  load_from_database, namespace_at,
}
use genesis_core.Elements.Engine.Validity.{is_valid, run_valid, adds_resource}
use genesis_core.Elements.Engine.Loading.{load_from_database_exports}

abbrev core : Element
core = record { uuid = 1; name = codes "core" }

abbrev user : OwnResource
user = record {
  uuid = 2;
  element = core;
  name = codes "u";
  resource_link_prefix = codes "$core.users";
}

abbrev user_link : Text
user_link = codes "$core.users.$u"

abbrev user_name : Text
user_name = codes "$core.users.$u:name"

abbrev tables : Tables
tables = record {
  elements = core ∷ [];
  imports = [];
  resources = user ∷ [];
  exports = record { element = core; link = user_name } ∷ [];
}

abbrev with_core : Engine
with_core = record {
  namespaces = (codes "$core", record { element = core; resources = [] }) ∷ [];
  resource_exports = [];
}

abbrev with_user : Engine
with_user = record {
  namespaces =
      (codes "$core", record { element = core; resources = (user_link, own user) ∷ [] }) ∷ [];
  resource_exports = [];
}

abbrev loaded : Engine
loaded = record with_user { resource_exports = (user_name, own user) ∷ [] }

add_user : add_resource (own user) with_core ≡ ok with_user
unfolding add_resource namespace_at genesis_core.Common.Dict.get genesis_core.Common.Dict.put
    resource_link
add_user = refl

parameter_test : parameter user_name ≡ codes "$u:name"
unfolding parameter genesis_core.Common.Text.last_from split
parameter_test = refl

load_tables : load_from_database tables ≡ ok loaded
unfolding load_from_database Dict.get Dict.put resource_link clear_parameters join
    genesis_core.Common.Text.map_last split genesis_core.Elements.Links.before_colon
load_tables = refl

load_from_database_exports_example :
    (resource : Resource) × (get_resource_by_link core user_name loaded ≡ ok resource)
    × (get_resource_by_export_link user_name loaded ≡ ok resource)
load_from_database_exports_example =
    load_from_database_exports tables loaded (record { element = core; link = user_name })
      load_tables (inl refl)

run_valid_example : is_valid with_user ≡ true
unfolding resource_link
run_valid_example = run_valid (adds_resource (own user)) with_core with_user add_user refl

find_user : get_resource_by_link core user_name with_user ≡ ok (own user)
unfolding get_resource_by_link Dict.get clear_parameters join genesis_core.Common.Text.map_last
    split genesis_core.Elements.Links.before_colon
find_user = refl
