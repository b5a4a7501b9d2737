-- ===== src/Dns/Sync.antt =====
-- `DNSSyncService` of exordos_core/dns_sync/service.py: what it asks of the ecosystem.
-- A request may raise, and every one of the record requests stands in a `try` of its own, so the
-- requests that are made do not depend on how earlier ones end: a pass is its list of requests.
-- The sets of UUIDs are run through in the order of the dictionaries that they come from.
pub mod Index
pub mod Reconciled
pub mod Fast
use Prim.Native.String.{String}
use genesis_core.Common.{
  ℕ, leb, ◌==◌, ◌&&◌, not, Bool, true, false, Option, none, some, List, [], ◌∷◌, ◌++◌, select,
  if◌then◌else◌,
}
use genesis_core.Common.Dict
use genesis_core.Common.Dict.{Dict, KeyType, nat_key, string_key}
use genesis_core.Common.Dict.Updates.{is_present}
use genesis_core.Dns.Model.{Domain, Record, RecordData, EcoRecord}

abbrev pub is_soa : String → Bool
is_soa t = string_key.same t "SOA"

unfoldable pub build_record_data : Record → RecordData
build_record_data r = record {
  uuid = r.uuid;
  record_type = r.record_type;
  ttl = r.ttl;
  disabled = r.disabled;
  body = r.body;
}

pub data Request : Type 0 where
  create : RecordData → Request
  update : ℕ → RecordData → Request
  delete : ℕ → Request

abbrev pub holds : {A : Type 0} → (A → Bool) → Option A → Bool
holds test none = false
holds test (some a) = test a

abbrev pub bool_beq : Bool → Bool → Bool
bool_beq true b = b
bool_beq false b = not b

-- all(local_data.get(k) == eco_rec.get(k) for k in compare_keys)
abbrev pub same_content : RecordData → EcoRecord → Bool
same_content d e =
    holds (λ t. string_key.same d.record_type t) e.record_type
    && holds (λ t. d.ttl == t) e.ttl
    && holds (λ b. bool_beq d.disabled b) e.disabled
    && holds (λ b. d.body == b) e.body

-- `{str(r.uuid): r for r in local_records}`
unfoldable pub local_index : List Record → Dict ℕ Record → Dict ℕ Record
local_index [] index = index
local_index (r ∷ rs) index = local_index rs (Dict.put r.uuid r index)

abbrev pub put_eco : EcoRecord → Option ℕ → Dict ℕ EcoRecord → Dict ℕ EcoRecord
put_eco e none index = index
put_eco e (some k) index = Dict.put k e index

-- `{r["uuid"]: r for r in eco_records if r.get("uuid")}`
unfoldable pub eco_index : List EcoRecord → Dict ℕ EcoRecord → Dict ℕ EcoRecord
eco_index [] index = index
eco_index (e ∷ es) index = eco_index es (put_eco e e.uuid index)

-- "Create missing"
unfoldable pub creates : Dict ℕ Record → Dict ℕ EcoRecord → List Request
creates [] eco = []
creates ((k, r) ∷ local) eco =
    let rest = creates local eco in
    if is_present (Dict.get k eco) then rest else create (build_record_data r) ∷ rest

abbrev pub update_of : ℕ → Record → Option EcoRecord → List Request → List Request
update_of k r none rest = rest
update_of k r (some e) rest =
    if same_content (build_record_data r) e then rest else update k (build_record_data r) ∷ rest

-- "Update existing only if content differs"
unfoldable pub updates : Dict ℕ Record → Dict ℕ EcoRecord → List Request
updates [] eco = []
updates ((k, r) ∷ local) eco = update_of k r (Dict.get k eco) (updates local eco)

-- "Delete extra"
unfoldable pub deletes : Dict ℕ EcoRecord → Dict ℕ Record → List Request
deletes [] local = []
deletes ((k, e) ∷ eco) local =
    let rest = deletes eco local in if is_present (Dict.get k local) then rest else delete k ∷ rest

abbrev pub eco_is_soa : EcoRecord → Bool
eco_is_soa e = holds is_soa e.record_type

-- The filters of the query of local records, and the comprehension over the answer.
abbrev pub local_records : Domain → List Record → List Record
local_records domain = select (λ r. (r.domain.uuid == domain.uuid) && not (is_soa r.record_type))

unfoldable pub full_sync_domain : Domain → List Record → List EcoRecord → List Request
unfolding creates updates deletes local_index eco_index
full_sync_domain domain table answer =
    let local = local_index (local_records domain table) [] in
    let eco = eco_index (select (λ e. not (eco_is_soa e)) answer) [] in
    creates local eco ++ (updates local eco ++ deletes eco local)

-- The query of `_fast_sync`.
abbrev pub recent_records : ℕ → List Record → List Record
recent_records since = select (λ r. leb since r.updated_at && not (is_soa r.record_type))

abbrev pub appended : Domain → Record → Option (Domain × List Record) → Domain × List Record
appended domain r none = (domain, r ∷ [])
appended domain r (some (first, rs)) = (first, rs ++ (r ∷ []))

-- `by_domain.setdefault(domain, []).append(rec)` for the domains that are synchronized.
unfoldable pub group : List Record → Dict ℕ (Domain × List Record) → Dict ℕ (Domain × List Record)
group [] groups = groups
group (r ∷ rs) groups =
    let here =
      Dict.put r.domain.uuid (appended r.domain r (Dict.get r.domain.uuid groups)) groups in
    group rs (if r.domain.sync_to_ecosystem then here else groups)

-- `{ed.get("name"): ed["uuid"] for ed in eco_domains}`
unfoldable pub eco_domain_map : List (String × ℕ) → Dict String ℕ → Dict String ℕ
eco_domain_map [] index = index
eco_domain_map ((name, uuid) ∷ domains) index = eco_domain_map domains (Dict.put name uuid index)

abbrev pub push : ℕ → Record → Request
push since r =
    if leb since r.created_at
    then create (build_record_data r)
    else update r.uuid (build_record_data r)

-- A request with the domain of the ecosystem that it goes to.
unfoldable pub push_all : ℕ → ℕ → List Record → List (ℕ × Request)
push_all since eco_domain [] = []
push_all since eco_domain (r ∷ rs) = (eco_domain, push since r) ∷ push_all since eco_domain rs

-- A domain that the ecosystem lacks waits for the next full pass.
abbrev pub push_domain : ℕ → Option ℕ → List Record → List (ℕ × Request)
push_domain since none rs = []
push_domain since (some eco_domain) rs = push_all since eco_domain rs

unfoldable pub push_groups : ℕ → Dict String ℕ → Dict ℕ (Domain × List Record) → List (ℕ × Request)
push_groups since names [] = []
push_groups since names ((_, (domain, rs)) ∷ groups) =
    push_domain since (Dict.get domain.name names) rs ++ push_groups since names groups

unfoldable pub fast_sync : ℕ → List Record → List (String × ℕ) → List (ℕ × Request)
unfolding group eco_domain_map push_groups
fast_sync since table answer =
    push_groups since (eco_domain_map answer []) (group (recent_records since table) [])
