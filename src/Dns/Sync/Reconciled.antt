-- ===== src/Dns/Sync/Reconciled.antt =====
-- What `_full_sync_domain` leaves in an ecosystem that answers every request as documented.
use genesis_core.Common.{
  ℕ, ◌==◌, not, Bool, true, false, ◌≡◌, refl, sym, subst, ◌∙◌, ap, Option, none, some, List, [],
  ◌∷◌, ◌++◌, arith, if◌then◌else◌, select,
}
use Prim.Native.String.{String}
use genesis_core.Common.Dict
use genesis_core.Common.Dict.{Dict, nat_key, string_key, get, same_refl}
use genesis_core.Common.Dict.Updates.{all_entries, distinct}
use genesis_core.Dns.Model.{Domain, Record, RecordData, EcoRecord}
use genesis_core.Dns.Sync.{
  Request, create, update, delete, build_record_data, same_content, local_index, eco_index,
  local_records, eco_is_soa, creates, updates, deletes, full_sync_domain, holds, bool_beq,
}
use genesis_core.Dns.Sync.Index.{keyed, local_index-distinct, local_index-keyed, eco_index-distinct}

abbrev pub stored_record : RecordData → EcoRecord
stored_record d = record {
  uuid = some d.uuid;
  record_type = some d.record_type;
  ttl = some d.ttl;
  disabled = some d.disabled;
  body = some d.body;
}

abbrev created : RecordData → Option EcoRecord → Option EcoRecord
created d none = some (stored_record d)
created d (some e) = some e

abbrev updated : RecordData → Option EcoRecord → Option EcoRecord
updated d none = none
updated d (some e) = some (stored_record d)

-- The documented effect of a request on the record with the UUID `k`: a POST stores a new record
-- and is refused for one that is there, a PUT replaces one that is there, a DELETE removes it.
abbrev pub effect : Request → ℕ → Option EcoRecord → Option EcoRecord
effect (create d) k v = if d.uuid == k then created d v else v
effect (update j d) k v = if j == k then updated d v else v
effect (delete j) k v = if j == k then none else v

-- The ecosystem, a service that the code only calls.
pub record Server : Type 1 where
  pub S : Type 0
  pub record_at : ℕ → S → Option EcoRecord
  pub answer : Request → S → S
  pub answer_documented :
      (q : Request) (k : ℕ) (s : S) → record_at k (answer q s) ≡ effect q k (record_at k s)

effects : List Request → ℕ → Option EcoRecord → Option EcoRecord
effects [] k v = v
effects (q ∷ qs) k v = effects qs k (effect q k v)

effects-append :
    (qs rs : List Request) (k : ℕ) (v : Option EcoRecord)
    → effects (qs ++ rs) k v ≡ effects rs k (effects qs k v)
unfolding effects
effects-append [] rs k v = refl
effects-append (q ∷ qs) rs k v = effects-append qs rs k (effect q k v)

after_create : Option Record → Option EcoRecord → Option EcoRecord → Option EcoRecord
after_create none eco v = v
after_create (some r) (some e) v = v
after_create (some r) none v = created (build_record_data r) v

effects-creates :
    (local : Dict ℕ Record) (eco : Dict ℕ EcoRecord) (k : ℕ) (v : Option EcoRecord)
    → distinct local ≡ true
    → all_entries keyed local ≡ true
    → effects (creates local eco) k v ≡ after_create (Dict.get k local) (Dict.get k eco) v
unfolding effects creates after_create Dict.get build_record_data
effects-creates [] eco k v d h = refl
effects-creates ((j, r) ∷ local) eco k v d h = ground (
  arith,
  effects-creates local eco k v,
  effects-creates local eco k (created (build_record_data r) v),
)

after_update : Option Record → Option EcoRecord → Option EcoRecord → Option EcoRecord
after_update none eco v = v
after_update (some r) none v = v
after_update (some r) (some e) v =
    if same_content (build_record_data r) e then v else updated (build_record_data r) v

effects-updates :
    (local : Dict ℕ Record) (eco : Dict ℕ EcoRecord) (k : ℕ) (v : Option EcoRecord)
    → distinct local ≡ true
    → effects (updates local eco) k v ≡ after_update (Dict.get k local) (Dict.get k eco) v
unfolding effects updates after_update Dict.get
effects-updates [] eco k v d = refl
effects-updates ((j, r) ∷ local) eco k v d = ground (
  arith,
  effects-updates local eco k v,
  effects-updates local eco k (updated (build_record_data r) v),
)

after_delete : Option Record → Option EcoRecord → Option EcoRecord → Option EcoRecord
after_delete (some r) eco v = v
after_delete none none v = v
after_delete none (some e) v = none

effects-deletes :
    (eco : Dict ℕ EcoRecord) (local : Dict ℕ Record) (k : ℕ) (v : Option EcoRecord)
    → distinct eco ≡ true
    → effects (deletes eco local) k v ≡ after_delete (Dict.get k local) (Dict.get k eco) v
unfolding effects deletes after_delete Dict.get
effects-deletes [] local k v d = ground arith
effects-deletes ((j, e) ∷ eco) local k v d =
    ground (arith, effects-deletes eco local k v, effects-deletes eco local k none)

bool_beq_refl : (b : Bool) → bool_beq b b ≡ true
bool_beq_refl true = refl
bool_beq_refl false = refl

stored_same : (d : RecordData) → same_content d (stored_record d) ≡ true
stored_same d = ground (arith, same_refl {K = String} d.record_type, bool_beq_refl d.disabled)

-- What the answer of the ecosystem tells of one UUID: a record that is listed is stored as it was
-- listed, and one that is not listed is not there if a local record has its UUID.
abbrev pub Listed : Option EcoRecord → Option Record → Option EcoRecord → Type 0
Listed (some e) l stored = stored ≡ some e
Listed none none stored = Unit {0}
Listed none (some r) stored = stored ≡ none

-- A local record has its content in the ecosystem, a record without a local one is gone, and the
-- records that the pass does not see stay.
abbrev pub Synced : Option Record → Option EcoRecord → Option EcoRecord → Option EcoRecord → Type 0
Synced (some r) e before after = holds (same_content (build_record_data r)) after ≡ true
Synced none (some e) before after = after ≡ none
Synced none none before after = after ≡ before

all_effects :
    (l : Option Record) (e v : Option EcoRecord)
    → Listed e l v
    → Synced l e v (after_delete l e (after_update l e (after_create l e v)))
unfolding after_delete after_update after_create
all_effects (some r) (some e) v h = ground (arith, stored_same (build_record_data r))
all_effects (some r) none v h = ground (arith, stored_same (build_record_data r))
all_effects none (some e) v h = refl
all_effects none none v h = refl

full_effects :
    (local : Dict ℕ Record) (eco : Dict ℕ EcoRecord) (k : ℕ) (v : Option EcoRecord)
    → distinct local ≡ true
    → all_entries keyed local ≡ true
    → distinct eco ≡ true
    → effects (creates local eco ++ (updates local eco ++ deletes eco local)) k v
      ≡ after_delete (Dict.get k local) (Dict.get k eco) (
          after_update
            (Dict.get k local)
            (Dict.get k eco)
            (after_create (Dict.get k local) (Dict.get k eco) v))
full_effects local eco k v d keys d' = rw (
  effects-append (creates local eco) (updates local eco ++ deletes eco local) k v,
  effects-creates local eco k v d keys,
  effects-append (updates local eco) (deletes eco local) k _,
  effects-updates local eco k _ d,
  effects-deletes eco local k _ d',
)

-- `local_map.get(k)` and `eco_map.get(k)`
abbrev pub local_at : Domain → List Record → ℕ → Option Record
local_at domain table k = Dict.get k (local_index (local_records domain table) [])

abbrev pub eco_at : List EcoRecord → ℕ → Option EcoRecord
eco_at answer k = Dict.get k (eco_index (select (λ e. not (eco_is_soa e)) answer) [])

module _ (server : Server) where
  abbrev pub answers : List Request → server.S → server.S
  answers [] s = s
  answers (q ∷ qs) s = answers qs (server.answer q s)

  record_at-answers :
      (qs : List Request) (k : ℕ) (s : server.S)
      → server.record_at k (answers qs s) ≡ effects qs k (server.record_at k s)
  unfolding effects
  record_at-answers [] k s = refl
  record_at-answers (q ∷ qs) k s =
      record_at-answers qs k (server.answer q s)
      ∙ ap (effects qs k) (server.answer_documented q k s)

  -- In an ecosystem that acts on requests as documented and lists what it stores, a full pass leaves
  -- under the UUID of each local record of the domain that is no SOA record its content, and nothing
  -- under each listed UUID without such a record; records under other UUIDs stay.
  pub full_sync_domain-Synced :
      (domain : Domain) (table : List Record) (answer : List EcoRecord) (s : server.S) (k : ℕ)
      → Listed (eco_at answer k) (local_at domain table k) (server.record_at k s)
      → Synced
          (local_at domain table k)
          (eco_at answer k)
          (server.record_at k s)
          (server.record_at k (answers (full_sync_domain domain table answer) s))
  full_sync_domain-Synced domain table answer s k h =
      let ls = local_records domain table in
      let es = select (λ e. not (eco_is_soa e)) answer in
      let local = local_index ls [] in
      let eco = eco_index es [] in
      let v = server.record_at k s in
      let full : server.record_at k (answers (full_sync_domain domain table answer) s)
          ≡ after_delete (Dict.get k local) (Dict.get k eco) (
              after_update (Dict.get k local) (Dict.get k eco)
                (after_create (Dict.get k local) (Dict.get k eco) v)) =
        record_at-answers (full_sync_domain domain table answer) k s
        ∙ (unfold full_sync_domain in
            full_effects local eco k v (local_index-distinct ls [] refl)
              (local_index-keyed ls [] refl) (eco_index-distinct es [] refl)) in
      subst (Synced (Dict.get k local) (Dict.get k eco) v) (sym full)
        (all_effects (Dict.get k local) (Dict.get k eco) v h)
