-- ===== src/Elements/Manifest/Resolver.antt =====
-- `LinkResolver` of exordos_core/elements/dm/models.py, from the link to `full_link_original`.
use genesis_core.Common.{◌==◌, Bool, false, Option, none, some, List, [], ◌∷◌, ◌++◌, if◌then◌else◌}
use genesis_core.Common.Outcome.{Outcome, ok, raised, ◌>>=◌}
use genesis_core.Common.Text.{Text, split, join, text_beq, occurs}
use genesis_core.Elements.Links.{dot, before_colon}
use genesis_core.Elements.Engine.Model.{
  EngineError, type_error, Element, Resource, own, imported, element_link, resource_link,
}
use genesis_core.Elements.Engine.{Engine, get_element, get_resource_by_link}

-- `part.startswith("$")`
abbrev pub is_name : Text → Bool
is_name [] = false
is_name (c ∷ part) = c == b'$'

-- The last part that starts with a dollar sign.
unfoldable pub last_name : List Text → Option Text
last_name [] = none
last_name (part ∷ parts) = elim (last_name parts) [
  | some name ↦ some name
  | none ↦ if is_name part then some part else none
]

-- `parts[: parts.index(part) + 1]`, up to the first part of this text.
unfoldable pub up_to : Text → List Text → List Text
up_to name [] = []
up_to name (part ∷ parts) =
    let rest = up_to name parts in part ∷ (if text_beq part name then [] else rest)

abbrev joined : List Text → Option Text
joined [] = none
joined (part ∷ parts) = some (join dot (part, parts))

abbrev up_to_name : List Text → Option Text
up_to_name parts = elim (last_name parts) [ none ↦ none | some name ↦ joined (up_to name parts) ]

-- `_extract_resource_link`
unfoldable pub extract_resource_link : Text → Option Text
unfolding last_name up_to join
extract_resource_link full_link =
    let (part, parts) = split dot (before_colon full_link) in up_to_name (part ∷ parts)

-- `full_link[len(link):]`
unfoldable pub after_link : Text → Text → Text
after_link [] full_link = full_link
after_link link [] = []
after_link (_ ∷ link) (_ ∷ full_link) = after_link link full_link

-- `resource.original.link`
abbrev pub original_link : Resource → Text
original_link (own r) = resource_link (own r)
original_link (imported element r name) = resource_link (own r)

unfoldable pub resolved_link : Element → Text → Engine → Outcome EngineError Text
unfolding get_element get_resource_by_link
resolved_link element link engine =
    if occurs dot link
    then (get_resource_by_link element link engine >>= λ r. ok (original_link r))
    else (get_element link engine >>= λ e. ok (element_link e))

-- `LinkResolver(...).full_link_original`; without a name in the link, `"." in None` raises.
unfoldable pub full_link_original : Element → Text → Engine → Outcome EngineError Text
unfolding extract_resource_link resolved_link after_link
full_link_original element full_link engine = elim (extract_resource_link full_link) [
  | none ↦ raised type_error
  | some link ↦ resolved_link element link engine >>= λ l. ok (l ++ after_link link full_link)
]
