-- ===== src/Dns/Service.antt =====
-- `_ensure_realm_domain` and `_sync_all_domains` of exordos_core/dns_sync/service.py.
pub mod Passes
use Prim.Native.String.{String}
use genesis_core.Common.{
  ℕ, ◌+◌, leb, ltb, ◌==◌, ◌&&◌, not, Bool, true, false, Option, none, some, List, [], ◌∷◌, ◌++◌,
  select, if◌then◌else◌, ◌≡◌, refl, arith, ◌≤◌, ◌<◌,
}
use genesis_core.Common.Dict
use genesis_core.Common.Dict.{Dict, string_key}
use genesis_core.Dns.Model.{Domain, Record, EcoRecord}
use genesis_core.Dns.Sync.{
  Request, full_sync_domain, fast_sync, eco_domain_map, group, recent_records,
}

abbrev pub find_domain : String → List Domain → Option Domain
find_domain name [] = none
find_domain name (d ∷ ds) = if string_key.same d.name name then some d else find_domain name ds

unfoldable pub mark_domain : String → List Domain → List Domain
mark_domain name [] = []
mark_domain name (d ∷ ds) =
    if string_key.same d.name name
    then record d { sync_to_ecosystem = true } ∷ ds
    else d ∷ mark_domain name ds

-- The domain is made, under a new UUID, or marked. Without a name the service stays uninitialized.
unfoldable pub ensure_realm_domain : ℕ → Option String → List Domain → Bool × List Domain
unfolding mark_domain
ensure_realm_domain fresh none table = (false, table)
ensure_realm_domain fresh (some name) table = if string_key.same name "" then (false, table) else (
  true,
  elim (find_domain name table) [
    | none ↦ table ++ (record { uuid = fresh; name = name; sync_to_ecosystem = true } ∷ [])
    | some d ↦ mark_domain name table
  ],
)

-- What the ecosystem answers; `none` is an exception.
pub record Ecosystem : Type 0 where
  pub realm_domain : Option (Option String)
  pub domains : Option (List (String × ℕ))
  pub create_domain : String → Option ℕ
  pub list_records : ℕ → Option (List EcoRecord)

pub record State : Type 0 where
  pub initialized : Bool
  pub last_full_sync_at : ℕ
  pub last_fast_sync_dt : Option ℕ
  pub table : List Domain

-- FULL_SYNC_INTERVAL
abbrev pub full_sync_interval : ℕ
full_sync_interval = 60

abbrev pub eco_uuid : Ecosystem → Dict String ℕ → Domain → Option ℕ
eco_uuid ecosystem names domain = elim (Dict.get domain.name names) [
  | none ↦ ecosystem.create_domain domain.name
  | some uuid ↦ some uuid
]

abbrev pub requests_for : ℕ → List Request → List (ℕ × Request)
requests_for uuid [] = []
requests_for uuid (q ∷ qs) = (uuid, q) ∷ requests_for uuid qs

abbrev pub sync_listed : Domain → List Record → ℕ → Option (List EcoRecord) → List (ℕ × Request)
sync_listed domain records uuid none = []
sync_listed domain records uuid (some answer) =
    requests_for uuid (full_sync_domain domain records answer)

-- One round of the loop over the domains. An exception ends the round, not the loop.
abbrev pub sync_domain : Ecosystem → List Record → Domain → Option ℕ → List (ℕ × Request)
sync_domain ecosystem records domain none = []
sync_domain ecosystem records domain (some uuid) =
    sync_listed domain records uuid (ecosystem.list_records uuid)

unfoldable pub full_pass :
    Ecosystem → List Record → Dict String ℕ → List Domain → List (ℕ × Request)
full_pass ecosystem records names [] = []
full_pass ecosystem records names (domain ∷ ds) =
    sync_domain ecosystem records domain (eco_uuid ecosystem names domain)
    ++ full_pass ecosystem records names ds

-- "Initialize on first successful call"
unfoldable pub initialize : Ecosystem → ℕ → State → State
initialize ecosystem fresh s = if s.initialized then s else elim ecosystem.realm_domain [
  | none ↦ s
  | some name ↦
      let (done, table) = ensure_realm_domain fresh name s.table in
      record s { initialized = done; table = table }
]

abbrev pub needs_full : ℕ → State → Bool
needs_full now s = leb (s.last_full_sync_at + full_sync_interval) now

abbrev pub to_sync : State → List Domain
to_sync s = select (λ d. d.sync_to_ecosystem) s.table

-- The clock is read for `now` at the start and for `end` behind the last request.
unfoldable pub run_full : Ecosystem → List Record → ℕ → ℕ → State → State × List (ℕ × Request)
run_full ecosystem records now end s = elim (to_sync s) [
  | [] ↦ (s, [])
  | domain ∷ ds ↦ elim ecosystem.domains [
    | none ↦ (s, [])
    | some listed ↦ (
      record s { last_full_sync_at = now; last_fast_sync_dt = some end },
      full_pass ecosystem records (eco_domain_map listed []) (domain ∷ ds),
    )
  ]
]

-- `_fast_sync` asks for the list of domains only when a record of a synchronized one is recent.
unfoldable pub run_fast : Ecosystem → List Record → ℕ → State → State × List (ℕ × Request)
run_fast ecosystem records end s = elim s.last_fast_sync_dt [
  | none ↦ (s, [])
  | some since ↦ elim (group (recent_records since records) []) [
    | [] ↦ (record s { last_fast_sync_dt = some end }, [])
    | _ ∷ _ ↦ elim ecosystem.domains [
      | none ↦ (s, [])
      | some listed ↦ (record s { last_fast_sync_dt = some end }, fast_sync since records listed)
    ]
  ]
]

unfoldable pub sync_all_domains :
    Ecosystem → List Record → ℕ → ℕ → ℕ → State → State × List (ℕ × Request)
unfolding initialize run_full run_fast
sync_all_domains ecosystem records fresh now end s =
    let s' = initialize ecosystem fresh s in
    if not s'.initialized
    then (s', [])
    else if needs_full now s'
    then run_full ecosystem records now end s'
    else run_fast ecosystem records end s'
