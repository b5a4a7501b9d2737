-- ===== src/Resources/Aggregate.antt =====
-- What the status of a spread secret or configuration says of its hosts.
use genesis_core.Common.{
  ℕ, ◌==◌, ◌||◌, Bool, true, false, some, List, [], ◌∷◌, all, any, ◌≡◌, refl, arith, Member, inl,
  inr, ◌≢◌, subst, sym,
}
use genesis_core.Common.Dict
use genesis_core.Common.Dict.{Dict, nat_key, get-put, get-put_self}
use genesis_core.Resources.{
  Status, new, in_progress, active, error, same_status, is_active, Target, Actual, status_updated,
  update_host, host_status, aggregate,
}
use genesis_core.Resources.Spread.{
  Master, Db, with_status, set_status, update_hosts, actualize_outdated,
}

-- A pair whose resource has become active is one that the agent reports as active.
active_host :
    (pair : Target × Actual) → is_active (host_status pair) ≡ true → is_active pair.1.status ≡ true
unfolding update_host status_updated
active_host (target, actual) h = ground arith

all_active :
    (pairs : List (Target × Actual)) (pair : Target × Actual)
    → all (λ p. is_active (host_status p)) pairs ≡ true
    → Member pair pairs
    → is_active pair.1.status ≡ true
all_active [] pair h m = absurd m
all_active (p ∷ pairs) pair h (inl same) =
    subst (λ q. is_active q.1.status ≡ true) same (active_host p (ground arith))
all_active (p ∷ pairs) pair h (inr later) = all_active pairs pair (ground arith) later

-- The pairs give the status `ACTIVE` only if the agent of every one of them reports it.
pub aggregate_active :
    (pairs : List (Target × Actual)) (pair : Target × Actual)
    → aggregate pairs ≡ some active
    → Member pair pairs
    → is_active pair.1.status ≡ true
unfolding aggregate
aggregate_active pairs pair h m = all_active pairs pair (ground arith) m

abbrev pub settled : Target × Actual → Bool
settled p = is_active (host_status p) || same_status (host_status p) error

settled_not :
    (s : Status) (pairs : List (Target × Actual))
    → same_status s active ≡ false
    → same_status s error ≡ false
    → all settled pairs ≡ true
    → any (λ p. same_status (host_status p) s) pairs ≡ false
settled_not s [] a e h = refl
settled_not new (p ∷ pairs) a e h = ground (arith, settled_not new pairs refl refl)
settled_not in_progress (p ∷ pairs) a e h = ground (arith, settled_not in_progress pairs refl refl)
settled_not active (p ∷ pairs) a e h = cc
settled_not error (p ∷ pairs) a e h = cc

one_error :
    (pairs : List (Target × Actual)) (pair : Target × Actual)
    → Member pair pairs
    → host_status pair ≡ error
    → all (λ p. is_active (host_status p)) pairs ≡ false
one_error [] pair m h = absurd m
one_error (p ∷ pairs) pair (inl same) h =
    let e : host_status p ≡ error = subst (λ q. host_status q ≡ error) (sym same) h in ground arith
one_error (p ∷ pairs) pair (inr later) h = ground (arith, one_error pairs pair later h)

-- Where the hosts have settled, one of them in error, the status and the row of the master stay as
-- they are: an error of a host, and even of all of them, is never shown on the master.
pub actualize_outdated_error :
    (now : ℕ) (m : Master) (resource : Target) (pairs : List (Target × Actual))
    (pair : Target × Actual) (db : Db)
    → all settled pairs ≡ true
    → Member pair pairs
    → host_status pair ≡ error
    → actualize_outdated now m resource pairs db ≡ update_hosts pairs db
unfolding actualize_outdated aggregate set_status
actualize_outdated_error now m resource pairs pair db s member h = ground (
  arith,
  one_error pairs pair member h,
  settled_not new pairs refl refl s,
  settled_not in_progress pairs refl refl s,
)

-- With the pair of a single host that is active now, the master becomes active, whatever the
-- status of its other hosts, which the view of outdated resources does not show; their resources
-- stay as they are.
pub actualize_outdated_early :
    (now : ℕ) (m : Master) (resource target other : Target) (actual : Actual) (db : Db)
    → m.status ≢ active
    → is_active actual.status ≡ true
    → target.hash ≡ actual.hash
    → resource.uuid ≡ m.uuid
    → (target.uuid == other.uuid) ≡ false
    → (m.uuid == other.uuid) ≡ false
    → Dict.get other.uuid db.resources ≡ some other
    → (Dict.get m.uuid (actualize_outdated now m resource ((target, actual) ∷ []) db).masters
        ≡ some (record m { status = active; updated_at = now }))
      × (Dict.get other.uuid
            (actualize_outdated now m resource ((target, actual) ∷ []) db).resources
          ≡ some other)
unfolding actualize_outdated aggregate set_status update_hosts update_host status_updated
actualize_outdated_early now m resource target other actual db idle is_on same own apart outside
      there =
    let host = update_host target actual in
    let started : Master = record m { status = active; updated_at = now } in
    ground (
      arith,
      get-put target.uuid other.uuid host db.resources,
      get-put m.uuid other.uuid (with_status now active resource)
          (Dict.put target.uuid host db.resources),
      get-put_self m.uuid started db.masters,
    )
