-- ===== src/Values/Cases.antt =====
-- Rows on which the selection of exordos_core/vs runs, and the theorems at them.
use genesis_core.Common.{ℕ, ◌+◌, ◌≡◌, refl, true, false, none, some, [], ◌∷◌}
use genesis_core.Common.Outcome.{ok}
use genesis_core.Values.{
  Profile, Value, Variable, by_selector, in_progress, active, Tables, actualize_variable, select_me,
}
use genesis_core.Values.Selection.{select_me-actualize_variable}

abbrev value_at : ℕ → ℕ → Value
value_at uuid created_at = record {
  uuid = uuid;
  variable = 1;
  value = 10 + uuid;
  manual_selected = false;
  created_at = created_at;
}

abbrev variable : Variable
variable = record { uuid = 1; setter = by_selector true; value = none; status = in_progress }

abbrev profile : ℕ → Profile
profile uuid = record { uuid = uuid; is_global = true; active = true }

abbrev tables : Tables
tables = record {
  profiles = profile 1 ∷ profile 2 ∷ [];
  values = value_at 2 500 ∷ value_at 3 900 ∷ [];
  elements = [];
}

select_me-actualize_variable_example :
    actualize_variable
      (record tables {
        values = record (value_at 2 500) { manual_selected = true } ∷ value_at 3 900 ∷ [];
      })
      variable
    ≡ ok (record variable { value = some 12; status = active })
unfolding select_me
select_me-actualize_variable_example =
    select_me-actualize_variable tables (value_at 2 500) variable
      (record (value_at 2 500) { manual_selected = true } ∷ value_at 3 900 ∷ []) refl refl refl refl
