-- ===== src/Dns/Cases.antt =====
-- Inputs on which the synchronization of exordos_core/dns_sync runs, and the theorems at them.
use genesis_core.Common.{
  ℕ, ◌≡◌, refl, true, false, Option, none, some, [], ◌∷◌, if◌then◌else◌, ◌==◌,
}
use genesis_core.Common.Dict
use genesis_core.Common.Dict.{Dict, nat_key, get-put, get-remove}
use genesis_core.Dns.Model.{Domain, Record, EcoRecord}
use genesis_core.Dns.Sync.{
  push, holds, Request, create, update, delete, full_sync_domain, fast_sync, build_record_data,
}
use genesis_core.Dns.Sync.Reconciled.{
  Server, effect, local_at, eco_at, Synced, answers, full_sync_domain-Synced,
}
use genesis_core.Dns.Service.{Ecosystem, State}

-- An ecosystem that keeps a function from UUIDs to records.
abbrev memory : Server
memory = record {
  S = ℕ → Option EcoRecord;
  record_at = λ k s. s k;
  answer = λ q s k. effect q k (s k);
  answer_documented = λ q k s. refl;
}

abbrev realm : Domain
realm = record { uuid = 1; name = "realm.example"; sync_to_ecosystem = true }

abbrev address_record : ℕ → Record
address_record k = record {
  uuid = k;
  domain = realm;
  record_type = "A";
  ttl = 3600;
  disabled = false;
  body = 10;
  created_at = 100;
  updated_at = 100;
}

abbrev listed : ℕ → EcoRecord
listed k = record {
  uuid = some k;
  record_type = some "A";
  ttl = some 3600;
  disabled = none;
  body = some 11;
}

abbrev before : ℕ → Option EcoRecord
before k = if k == 8 then some (listed 8) else none

full_requests :
    full_sync_domain realm (address_record 7 ∷ []) (listed 8 ∷ [])
    ≡ create (build_record_data (address_record 7)) ∷ delete 8 ∷ []
unfolding full_sync_domain Dict.put Dict.get
full_requests = refl

fast_requests :
    fast_sync 90 (address_record 7 ∷ []) (("realm.example", 5) ∷ [])
    ≡ (5, create (build_record_data (address_record 7))) ∷ []
unfolding fast_sync Dict.put Dict.get genesis_core.Dns.Sync.push_all
fast_requests = refl

full_sync_domain-Synced_example :
    Synced
      (local_at realm (address_record 7 ∷ []) 7)
      (eco_at (listed 8 ∷ []) 7)
      none
      (answers memory (full_sync_domain realm (address_record 7 ∷ []) (listed 8 ∷ [])) before 7)
unfolding Dict.get genesis_core.Dns.Sync.eco_index Dict.put genesis_core.Dns.Sync.local_index
full_sync_domain-Synced_example =
    full_sync_domain-Synced memory realm (address_record 7 ∷ []) (listed 8 ∷ []) before 7 refl

abbrev ecosystem : Ecosystem
ecosystem = record {
  realm_domain = some (some "realm.example");
  domains = some (("realm.example", 5) ∷ []);
  create_domain = λ name. none;
  list_records = λ uuid. some (listed 8 ∷ []);
}

abbrev at_start : State
at_start = record {
  initialized = false;
  last_full_sync_at = 61;
  last_fast_sync_dt = none;
  table = [];
}
