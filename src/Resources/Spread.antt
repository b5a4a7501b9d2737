-- ===== src/Resources/Spread.antt =====
-- A secret or a configuration that is spread over hosts: the steps that
-- `SecretServiceBuilder` of exordos_core/secret/service.py has for SSH keys and the service of
-- exordos_core/config/service.py for configurations.
-- `inserts` says which insert of a resource succeeds; the first that does not ends the step.
use genesis_core.Common.{
  ℕ, ◌==◌, ◌||◌, Bool, true, false, Option, none, some, List, [], ◌∷◌, if◌then◌else◌, select, any,
}
use genesis_core.Common.Dict
use genesis_core.Common.Dict.{Dict, nat_key}
use genesis_core.Resources.{
  Status, in_progress, same_status, Target, Actual, update_host, aggregate,
}

-- A key or a configuration. `host_hash` is the hash of the resource that it makes for a host.
pub record Master : Type 0 where
  pub uuid : ℕ
  pub status : Status
  pub hash : ℕ
  pub owners_alive : Bool
  pub nodes : List ℕ
  pub host_uuid : ℕ → ℕ
  pub host_hash : ℕ → ℕ
  pub updated_at : ℕ

-- The rows of the masters, and the resources, those of the masters under their UUIDs.
pub record Db : Type 0 where
  pub masters : Dict ℕ Master
  pub resources : Dict ℕ Target

abbrev pub master_resource : Master → Target
master_resource m = record {
  uuid = m.uuid;
  master = none;
  status = m.status;
  hash = m.hash;
  full_hash = m.hash;
  tracked_at = m.updated_at;
}

abbrev pub host_resource : Master → ℕ → Target
host_resource m node = record {
  uuid = m.host_uuid node;
  master = some m.uuid;
  status = in_progress;
  hash = m.host_hash node;
  full_hash = m.host_hash node;
  tracked_at = m.updated_at;
}

abbrev pub put_resource : Target → Db → Db
put_resource t db = record db { resources = Dict.put t.uuid t db.resources }

abbrev pub put_master : Master → Db → Db
put_master m db = record db { masters = Dict.put m.uuid m db.masters }

-- The resources of the hosts in turn, and whether all of them were inserted.
unfoldable pub insert_hosts : (ℕ → Bool) → Master → List ℕ → Db → Bool × Db
insert_hosts inserts m [] db = (true, db)
insert_hosts inserts m (node ∷ nodes) db =
    let rest = insert_hosts inserts m nodes (put_resource (host_resource m node) db) in
    if inserts (m.host_uuid node) then rest else (false, db)

-- The row and its resource with the status `IN_PROGRESS`, at the time of the save.
unfoldable pub start_master : ℕ → Master → Db → Db
start_master now m db =
    let started : Master = record m { status = in_progress; updated_at = now } in
    put_resource (master_resource started) (put_master started db)

abbrev pub after_hosts : ℕ → Master → Bool × Db → Db
after_hosts now m (done, db) = if done then start_master now m db else db

abbrev pub remove_master : ℕ → Db → Db
remove_master uuid db = record db { masters = Dict.remove uuid db.masters }

-- Without an owner the master is deleted; without a node it waits.
unfoldable pub actualize_new : (ℕ → Bool) → ℕ → Master → List ℕ → Db → Db
unfolding insert_hosts start_master
actualize_new inserts now m nodes db =
    let spread =
      after_hosts now m (insert_hosts inserts m nodes (put_resource (master_resource m) db)) in
    let inserted = if inserts m.uuid then spread else db in
    let waited : Db = elim nodes [ [] ↦ db | _ ∷ _ ↦ inserted ] in
    if m.owners_alive then waited else remove_master m.uuid db

-- The nodes of the master that exist.
abbrev pub available : List ℕ → Master → List ℕ
available nodes m = select (λ n. any (λ k. k == n) nodes) m.nodes

unfoldable pub actualize_new_all : (ℕ → Bool) → ℕ → List ℕ → List Master → Db → Db
unfolding actualize_new
actualize_new_all inserts now nodes [] db = db
actualize_new_all inserts now nodes (m ∷ ms) db =
    actualize_new_all inserts now nodes ms (actualize_new inserts now m (available nodes m) db)

abbrev pub has_master : List ℕ → Target → Bool
has_master uuids t = elim t.master [ none ↦ false | some m ↦ any (λ k. k == m) uuids ]

-- The resources of the masters and of their hosts are removed.
unfoldable pub without : List ℕ → Dict ℕ Target → Dict ℕ Target
without uuids [] = []
without uuids ((k, t) ∷ rest) =
    let kept = without uuids rest in
    if any (λ j. j == k) uuids || has_master uuids t then kept else (k, t) ∷ kept

abbrev pub uuids_of : List Master → List ℕ
uuids_of [] = []
uuids_of (m ∷ ms) = m.uuid ∷ uuids_of ms

-- "Update through recreation"
unfoldable pub actualize_changed : (ℕ → Bool) → ℕ → List ℕ → List Master → Db → Db
unfolding actualize_new_all without
actualize_changed inserts now nodes changed db =
    actualize_new_all inserts now nodes changed
      (record db { resources = without (uuids_of changed) db.resources })

unfoldable pub actualize_deleted : List ℕ → Db → Db
unfolding without
actualize_deleted deleted db = record db { resources = without deleted db.resources }

unfoldable pub update_hosts : List (Target × Actual) → Db → Db
update_hosts [] db = db
update_hosts ((target, actual) ∷ pairs) db =
    update_hosts pairs (put_resource (update_host target actual) db)

abbrev pub with_status : ℕ → Status → Target → Target
with_status now status t = record t { status = status; tracked_at = now }

-- The master takes over a new status, with its resource.
unfoldable pub set_status : ℕ → Master → Target → Option Status → Db → Db
set_status now m resource none db = db
set_status now m resource (some status) db =
    if same_status m.status status
    then db
    else put_resource (with_status now status resource)
        (put_master (record m { status = status; updated_at = now }) db)

-- The pairs are those that the view of outdated resources has for the master.
unfoldable pub actualize_outdated : ℕ → Master → Target → List (Target × Actual) → Db → Db
unfolding update_hosts set_status
actualize_outdated now m resource pairs db =
    set_status now m resource (aggregate pairs) (update_hosts pairs db)
