-- ===== src/Values.antt =====
-- exordos_core/vs: profiles, values and variables of dm/models.py, and the hooks of the builder in
-- builders/service.py. The tables are lists of rows in the order in which a query returns them.
pub mod Selection
mod Cases
use genesis_core.Common.{
  ℕ, ◌==◌, ltb, ◌&&◌, ◌||◌, not, Bool, true, false, Option, none, some, List, [], ◌∷◌,
  if◌then◌else◌, any, select,
}
use genesis_core.Common.Outcome.{Outcome, ok, raised, ◌>>=◌}

pub record Profile : Type 0 where
  pub uuid : ℕ
  pub is_global : Bool
  pub active : Bool

pub record Value : Type 0 where
  pub uuid : ℕ
  pub variable : ℕ
  pub value : ℕ
  pub manual_selected : Bool
  pub created_at : ℕ

pub data Setter : Type 0 where
  by_profile : (element : Option ℕ) (ignore : Bool) (profiles : List (ℕ × ℕ)) → Setter
  by_selector : (latest : Bool) → Setter

pub data VariableStatus : Type 0 where
  in_progress active : VariableStatus

pub record Variable : Type 0 where
  pub uuid : ℕ
  pub setter : Setter
  pub value : Option ℕ
  pub status : VariableStatus

pub data ValueError : Type 0 where
  not_global not_of_variable profile_in_use no_single_profile : ValueError
  cannot_find_value not_implemented : ValueError

-- An element, with the profile that it has.
pub record Element : Type 0 where
  pub uuid : ℕ
  pub profile : Option ℕ

abbrev pub deactivated : Profile → Profile
deactivated p = if p.is_global then record p { active = false } else p

-- The loop over the global profiles, and the update of the profile itself.
unfoldable pub activated : ℕ → List Profile → List Profile
activated uuid [] = []
activated uuid (p ∷ ps) =
    (if p.uuid == uuid then record p { active = true } else deactivated p) ∷ activated uuid ps

unfoldable pub activate : Profile → List Profile → Outcome ValueError (List Profile)
unfolding activated
activate profile profiles =
    if profile.is_global then ok (activated profile.uuid profiles) else raised not_global

abbrev pub is_current : Profile → Bool
is_current p = p.is_global && p.active

abbrev pub the_only : List Profile → Outcome ValueError Profile
the_only (p ∷ []) = ok p
the_only _ = raised no_single_profile

-- `get_one` raises unless there is exactly one.
unfoldable pub global_profile : List Profile → Outcome ValueError Profile
global_profile profiles = the_only (select is_current profiles)

abbrev pub profiles_of : Setter → List (ℕ × ℕ)
profiles_of (by_profile element ignore profiles) = profiles
profiles_of (by_selector latest) = []

-- `_validate_not_used`
unfoldable pub is_used : ℕ → List Variable → Bool
is_used profile [] = false
is_used profile (v ∷ vs) = any (λ p. p.0 == profile) (profiles_of v.setter) || is_used profile vs

unfoldable pub without_profile : ℕ → List Profile → List Profile
without_profile uuid = select (λ p. not (p.uuid == uuid))

unfoldable pub delete_profile : ℕ → List Variable → List Profile → Outcome ValueError (List Profile)
unfolding is_used without_profile
delete_profile uuid variables profiles =
    if is_used uuid variables then raised profile_in_use else ok (without_profile uuid profiles)

unfoldable pub value_for : ℕ → List (ℕ × ℕ) → Option ℕ
value_for profile [] = none
value_for profile ((p, value) ∷ ps) = if p == profile then some value else value_for profile ps

unfoldable pub find_element : ℕ → List Element → Option Element
find_element uuid [] = none
find_element uuid (e ∷ es) = if e.uuid == uuid then some e else find_element uuid es

-- The profile of a variable: that of its element, or the global one.
abbrev pub profile_or_global : Option ℕ → List Profile → Outcome ValueError ℕ
profile_or_global (some p) profiles = ok p
profile_or_global none profiles = global_profile profiles >>= λ p. ok p.uuid

abbrev pub element_profile : Option Element → List Profile → Outcome ValueError ℕ
element_profile none profiles = raised cannot_find_value
element_profile (some e) profiles = profile_or_global e.profile profiles

abbrev pub chosen_profile : Option ℕ → List Element → List Profile → Outcome ValueError ℕ
chosen_profile none elements profiles = profile_or_global none profiles
chosen_profile (some uuid) elements profiles = element_profile (find_element uuid elements) profiles

abbrev pub set_or_keep : Bool → Option ℕ → Variable → Outcome ValueError Variable
set_or_keep ignore (some value) v = ok (record v { value = some value })
set_or_keep true none v = ok v
set_or_keep false none v = raised not_implemented

-- `sorted(values, key=created_at)[-1]`: of the latest, the last.
unfoldable pub latest_of : Value → List Value → Value
latest_of best [] = best
latest_of best (v ∷ vs) = latest_of (if ltb v.created_at best.created_at then best else v) vs

unfoldable pub first_selected : List Value → Option Value
first_selected [] = none
first_selected (v ∷ vs) = if v.manual_selected then some v else first_selected vs

abbrev pub selected_or : Option Value → Value → List Value → Value
selected_or (some v) first rest = v
selected_or none first rest = latest_of first rest

-- `SelectorVariableSetter.set_value`
abbrev pub select_value : Bool → List Value → Variable → Outcome ValueError Variable
select_value latest [] v = raised cannot_find_value
select_value false (x ∷ xs) v = raised cannot_find_value
select_value true (x ∷ xs) v =
    ok (record v { value = some (selected_or (first_selected (x ∷ xs)) x xs).value })

pub record Tables : Type 0 where
  pub profiles : List Profile
  pub values : List Value
  pub elements : List Element

abbrev pub values_of : ℕ → List Value → List Value
values_of variable = select (λ x. x.variable == variable)

abbrev pub set_with : Tables → Setter → Variable → Outcome ValueError Variable
set_with tables (by_profile element ignore profiles) v =
    chosen_profile element tables.elements tables.profiles >>= λ p.
    set_or_keep ignore (value_for p profiles) v
set_with tables (by_selector latest) v = select_value latest (values_of v.uuid tables.values) v

unfoldable pub set_value : Tables → Variable → Outcome ValueError Variable
unfolding value_for find_element global_profile latest_of first_selected
set_value tables v = set_with tables v.setter v

-- The hooks of the builder: only a value that cannot be found is handled.
abbrev pub actualized : Variable → Outcome ValueError Variable → Outcome ValueError Variable
actualized v (ok v') = ok (record v' { status = active })
actualized v (raised cannot_find_value) = ok (record v { value = none; status = in_progress })
actualized v (raised e) = raised e

unfoldable pub actualize_variable : Tables → Variable → Outcome ValueError Variable
unfolding set_value
actualize_variable tables v = actualized v (set_value tables v)

-- The loop of `select_me`, and the update of the value itself; that of `release_value` has none.
unfoldable pub reselected : ℕ → Option ℕ → List Value → List Value
reselected variable me [] = []
reselected variable me (x ∷ xs) =
    let mine = elim me as (λ _. Bool) [ none ↦ false | some uuid ↦ x.uuid == uuid ] in
    (if mine
      then record x { manual_selected = true }
      else if x.variable == variable
      then record x { manual_selected = false }
      else x)
    ∷ reselected variable me xs

unfoldable pub select_me : ℕ → Value → List Value → Outcome ValueError (List Value)
unfolding reselected
select_me variable value values =
    if value.variable == variable
    then ok (reselected variable (some value.uuid) values)
    else raised not_of_variable

unfoldable pub release_value : ℕ → List Value → List Value
unfolding reselected
release_value variable values = reselected variable none values

unfoldable pub selected_value : ℕ → List Value → Option Value
unfolding first_selected
selected_value variable values = first_selected (values_of variable values)
