-- ===== src/Config.antt =====
-- exordos_core/config/service.py: configurations, whose renders are spread over hosts.
use genesis_core.Common.{ℕ, Bool, List, [], ◌∷◌}
use genesis_core.Resources.{Target, Actual}
use genesis_core.Resources.Spread.{Master, Db}
use genesis_core.Resources.Spread

-- The first outdated pairs, which end the handling where there are none.
unfoldable pub actualize_outdated_config : ℕ → Master → Target → List (Target × Actual) → Db → Db
actualize_outdated_config now config resource [] db = db
actualize_outdated_config now config resource (r ∷ renders) db =
    Spread.actualize_outdated now config resource (r ∷ renders) db

unfoldable pub actualize_new_configs : (ℕ → Bool) → ℕ → List ℕ → List Master → Db → Db
actualize_new_configs inserts now nodes configs db =
    Spread.actualize_new_all inserts now nodes configs db

unfoldable pub actualize_changed_configs : (ℕ → Bool) → ℕ → List ℕ → List Master → Db → Db
actualize_changed_configs inserts now nodes changed db =
    Spread.actualize_changed inserts now nodes changed db

unfoldable pub actualize_deleted_configs : List ℕ → Db → Db
actualize_deleted_configs deleted db = Spread.actualize_deleted deleted db
