-- ===== src/Secrets/Cases.antt =====
-- Inputs on which the secret service of exordos_core/secret/service.py runs, and the theorems at
-- them.
use genesis_core.Common.{ℕ, ◌+◌, ◌≡◌, refl, true, none, some, [], ◌∷◌}
use genesis_core.Common.Dict
use genesis_core.Common.Dict.{Dict, nat_key}
use genesis_core.Resources.{Status, in_progress, active, Target, Actual}
use genesis_core.Resources.Spread
use genesis_core.Resources.Spread.{Master, update_hosts, put_resource}
use genesis_core.Secrets
use genesis_core.Secrets.{Secret, Save}
use genesis_core.Secrets.Settled.{secret_ok, target_ok, actualize_outdated_lem}

abbrev host : ℕ → Status → Target
host uuid status = record {
  uuid = uuid;
  master = some 1;
  status = status;
  hash = 5;
  full_hash = 6;
  tracked_at = 100;
}

abbrev report : Status → Actual
report status = record { status = status; hash = 5; full_hash = 7 }

abbrev key : Master
key = record {
  uuid = 1;
  status = in_progress;
  hash = 4;
  owners_alive = true;
  nodes = 8 ∷ 9 ∷ [];
  host_uuid = λ node. node + 10;
  host_hash = λ node. 5;
  updated_at = 100;
}

abbrev resource : Target
resource = record {
  uuid = 1;
  master = none;
  status = in_progress;
  hash = 4;
  full_hash = 4;
  tracked_at = 100;
}

abbrev db : Spread.Db
db = record {
  masters = (1, key) ∷ [];
  resources = (1, resource) ∷ (18, host 18 in_progress) ∷ (19, host 19 in_progress) ∷ [];
}

abbrev password : Secret ℕ
password = record { uuid = 1; status = in_progress; value = 40; hash = 4; updated_at = 100 }

abbrev passwords : Secrets.Db ℕ
passwords = record { secrets = (1, password) ∷ []; resources = (1, resource) ∷ [] }

actualize_outdated_example :
    (secret_ok password resource (report active) 41 (
        Dict.get 1
          (Secrets.actualize_outdated
            (λ save. true)
            200
            password
            resource
            (report active)
            41
            passwords).secrets)
      ≡ true)
    × (target_ok (report active) (
          Dict.get 1
            (Secrets.actualize_outdated
              (λ save. true)
              200
              password
              resource
              (report active)
              41
              passwords).resources)
        ≡ true)
unfolding Dict.get
actualize_outdated_example =
    actualize_outdated_lem (λ save. true) 200 password resource (report active) 41 passwords refl
      refl refl refl
