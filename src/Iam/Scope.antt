-- ===== src/Iam/Scope.antt =====
-- How a scope names a project: `_extract_project_from_scope` of the clients and
-- `_get_project_by_scope` of the tokens of exordos_core/user_api/iam/dm/models.py.
pub mod Projects
use Prim.Native.String.{String}
use genesis_core.Common.{
  ℕ, ◌==◌, ◌&&◌, not, Bool, true, false, Option, none, some, List, [], ◌∷◌, ◌++◌, if◌then◌else◌,
}
use genesis_core.Common.Outcome.{Outcome, ok, raised}
use genesis_core.Common.Text.{Text, Parts, codes, text_beq, split}
use genesis_core.Iam.Model.{IamError, multiple_projects}

-- `text.startswith(prefix)`
unfoldable pub starts_with : Text → Text → Bool
starts_with [] text = true
starts_with (p ∷ prefix) [] = false
starts_with (p ∷ prefix) (c ∷ text) = (p == c) && starts_with prefix text

abbrev cut_at : ℕ → ℕ → Text × Option Text → Text → Text × Option Text
cut_at sep c (head, tail) rest = if c == sep then ([], some rest) else (c ∷ head, tail)

-- `text.split(sep, 1)`: what stands before the first separator, and what behind it.
unfoldable pub split_once : ℕ → Text → Text × Option Text
split_once sep [] = ([], none)
split_once sep (c ∷ text) = cut_at sep c (split_once sep text) text

abbrev pub space : ℕ
space = b' '

abbrev pub colon : ℕ
colon = b':'

abbrev pub project_prefix : Text
project_prefix = codes "project:"

abbrev pub and_tail : Option Text → List Text → List Text
and_tail none parts = parts
and_tail (some part) parts = part ∷ parts

-- The loop over `scope.split(" ")`.
unfoldable pub project_parts : List Text → List Text
unfolding starts_with split_once
project_parts [] = []
project_parts (part ∷ parts) =
    let rest = project_parts parts in
    if starts_with project_prefix part then and_tail (split_once colon part).1 rest else rest

abbrev pub the_only : List Text → Outcome IamError (Option Text)
the_only [] = ok none
the_only (part ∷ []) = ok (some part)
the_only (part ∷ next ∷ parts) = raised multiple_projects

-- `text.split(" ")` as one list.
abbrev pub pieces : Text → List Text
pieces text = (split space text).0 ∷ (split space text).1

unfoldable pub extract_project_from_scope : Text → Outcome IamError (Option Text)
unfolding project_parts
extract_project_from_scope [] = ok none
extract_project_from_scope (c ∷ scope) = the_only (project_parts (pieces (c ∷ scope)))

-- What the second part of a piece asks for: the default project, or one by its UUID.
pub data Wanted : Type 0 where
  nothing default_project : Wanted
  by_uuid : Text → Wanted

abbrev pub wanted_of : Option Text → Wanted
wanted_of none = default_project
wanted_of (some name) = if text_beq name (codes "default") then default_project else by_uuid name

-- The first piece that begins with "project" decides.
unfoldable pub first_project : List Text → Wanted
unfolding starts_with split_once
first_project [] = nothing
first_project (piece ∷ rest) =
    let later = first_project rest in
    if starts_with (codes "project") piece then wanted_of (split_once colon piece).1 else later

-- `lower` stands for Python's `str.lower`.
unfoldable pub wanted_project : (Text → Text) → Text → Wanted
unfolding first_project
wanted_project lower scope = first_project (pieces (lower scope))
