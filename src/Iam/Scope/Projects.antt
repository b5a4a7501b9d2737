-- ===== src/Iam/Scope/Projects.antt =====
-- The scope that is made for a service token names its project in both readings.
use genesis_core.Common.{false, some, List, [], ◌∷◌, ◌++◌, ◌≡◌, refl, arith, ap, ◌∙◌}
use genesis_core.Common.Outcome.{ok}
use genesis_core.Common.Text.{Text, codes, text_beq, split_without, occurs}
use genesis_core.Iam.Scope.{
  starts_with, split_once, space, project_prefix, project_parts, the_only, pieces,
  extract_project_from_scope, by_uuid, first_project, wanted_project,
}

-- f"project:{project_uuid}"
abbrev pub project_scope : Text → Text
project_scope name = project_prefix ++ name

one_piece :
    (name : Text)
    → occurs space name ≡ false
    → pieces (project_scope name) ≡ project_scope name ∷ []
one_piece name h =
    let whole = split_without space (project_scope name) (ground (arith, h)) in
    ap (λ p. let r : List Text = p.0 ∷ p.1 in r) whole

-- The scope "project:" with a name without spaces behind it: `_extract_project_from_scope` returns
-- the name, and `_get_project_by_scope` looks for the project of that UUID, unless lowering the
-- scope changes it or the name is "default".
pub wanted_project-project_scope :
    (lower : Text → Text) (name : Text)
    → occurs space name ≡ false
    → text_beq name (codes "default") ≡ false
    → lower (project_scope name) ≡ project_scope name
    → (extract_project_from_scope (project_scope name) ≡ ok (some name))
      × (wanted_project lower (project_scope name) ≡ by_uuid name)
wanted_project-project_scope lower name spaceless named lowered =
    let whole = one_piece name spaceless in
    let parts : project_parts (project_scope name ∷ []) ≡ name ∷ [] =
      unfold project_parts starts_with split_once in refl in
    let first : first_project (project_scope name ∷ []) ≡ by_uuid name =
      unfold first_project starts_with split_once in ground arith in
    let extracted : extract_project_from_scope (project_scope name)
        ≡ the_only (project_parts (pieces (project_scope name))) =
      unfold extract_project_from_scope in refl in
    let asked : wanted_project lower (project_scope name)
        ≡ first_project (pieces (lower (project_scope name))) =
      unfold wanted_project in refl in
    (
      extracted ∙ ap (λ ps. the_only (project_parts ps)) whole ∙ ap the_only parts,
      asked ∙ ap (λ s. first_project (pieces s)) lowered ∙ ap first_project whole ∙ first,
    )
