-- ===== src/Resources.antt =====
-- The target resources of the universal agent that the services of exordos_core/secret and
-- exordos_core/config keep: one for each secret or configuration, and one for each host of those
-- that are spread over hosts. Hashes and times are numbers.
pub mod Spread
pub mod Aggregate
use genesis_core.Common.{
  ℕ, ◌==◌, ◌&&◌, not, Bool, true, false, Option, none, some, List, [], ◌∷◌, if◌then◌else◌, all, any,
}

-- The statuses of `SecretStatus` and of `ConfigStatus`.
pub data Status : Type 0 where
  new in_progress active error : Status

abbrev pub same_status : Status → Status → Bool
same_status new new = true
same_status in_progress in_progress = true
same_status active active = true
same_status error error = true
same_status _ _ = false

abbrev pub is_active : Status → Bool
is_active s = same_status s active

-- `TargetResource`; `master` is that of a host's resource.
pub record Target : Type 0 where
  pub uuid : ℕ
  pub master : Option ℕ
  pub status : Status
  pub hash : ℕ
  pub full_hash : ℕ
  pub tracked_at : ℕ

-- What the agent of the data plane reports.
pub record Actual : Type 0 where
  pub status : Status
  pub hash : ℕ
  pub full_hash : ℕ

-- "`ACTIVE` only if the hash is the same"
unfoldable pub status_updated : Target → Actual → Bool
status_updated target actual =
    if is_active actual.status
    then target.hash == actual.hash
    else not (same_status target.status actual.status)

-- The resource of one host takes over what its agent reports.
unfoldable pub update_host : Target → Actual → Target
unfolding status_updated
update_host target actual = record target {
  full_hash = actual.full_hash;
  status = if status_updated target actual then actual.status else target.status;
}

abbrev pub host_status : Target × Actual → Status
host_status pair = (update_host pair.0 pair.1).status

-- The status that the pairs of a secret or configuration give it, if any.
unfoldable pub aggregate : List (Target × Actual) → Option Status
unfolding update_host
aggregate pairs =
    if all (λ p. is_active (host_status p)) pairs
    then some active
    else if any (λ p. same_status (host_status p) new) pairs
    then some new
    else if any (λ p. same_status (host_status p) in_progress) pairs
    then some in_progress
    else none
