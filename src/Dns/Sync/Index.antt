-- ===== src/Dns/Sync/Index.antt =====
-- The dictionaries of `_full_sync_domain` have each key once, and a record stands under its UUID.
use genesis_core.Common.{ℕ, ◌==◌, Bool, true, ◌≡◌, Option, none, some, List, [], ◌∷◌, arith}
use genesis_core.Common.Dict
use genesis_core.Common.Dict.{Dict, nat_key, get, put, get-put}
use genesis_core.Common.Dict.Updates.{all_entries, all_entries-put, distinct, distinct-put}
use genesis_core.Dns.Model.{Record, EcoRecord}
use genesis_core.Dns.Sync.{local_index, eco_index, put_eco}

abbrev pub keyed : ℕ → Record → Bool
keyed k r = r.uuid == k

pub local_index-distinct :
    (rs : List Record) (d : Dict ℕ Record) → distinct d ≡ true → distinct (local_index rs d) ≡ true
unfolding local_index
local_index-distinct [] d h = h
local_index-distinct (r ∷ rs) d h =
    local_index-distinct rs (Dict.put r.uuid r d) (distinct-put r.uuid r d h)

pub local_index-keyed :
    (rs : List Record) (d : Dict ℕ Record)
    → all_entries keyed d ≡ true
    → all_entries keyed (local_index rs d) ≡ true
unfolding local_index
local_index-keyed [] d h = h
local_index-keyed (r ∷ rs) d h =
    local_index-keyed rs (Dict.put r.uuid r d) (all_entries-put keyed r.uuid r d h (ground arith))

put_eco-distinct :
    (e : EcoRecord) (k : Option ℕ) (d : Dict ℕ EcoRecord)
    → distinct d ≡ true
    → distinct (put_eco e k d) ≡ true
put_eco-distinct e none d h = h
put_eco-distinct e (some k) d h = distinct-put k e d h

pub eco_index-distinct :
    (es : List EcoRecord) (d : Dict ℕ EcoRecord)
    → distinct d ≡ true
    → distinct (eco_index es d) ≡ true
unfolding eco_index
eco_index-distinct [] d h = h
eco_index-distinct (e ∷ es) d h =
    eco_index-distinct es (put_eco e e.uuid d) (put_eco-distinct e e.uuid d h)
