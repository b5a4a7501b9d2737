-- ===== src/Secrets.antt =====
-- `SecretServiceBuilder` of exordos_core/secret/service.py: passwords, certificates and SSH keys.
-- SSH keys are spread over hosts: their steps are those of Resources.Spread.
-- What a secret holds is a type `V`, with the equality that Python compares by. `saves` says which
-- saves succeed; the first that does not ends the handling of the secret.
pub mod Settled
mod Cases
use genesis_core.Common.{
  ℕ, ◌==◌, ◌&&◌, ◌||◌, not, Bool, true, false, Option, none, some, List, [], ◌∷◌, if◌then◌else◌,
  any,
}
use genesis_core.Common.Dict
use genesis_core.Common.Dict.{Dict, KeyType, nat_key}
use genesis_core.Resources.{
  Status, new, in_progress, active, error, same_status, Target, Actual, status_updated,
}
use genesis_core.Resources.Spread.{with_status}

pub record Secret (V : Type 0) : Type 0 where
  pub uuid : ℕ
  pub status : Status
  pub value : V
  pub hash : ℕ
  pub updated_at : ℕ

-- `key`, `cert` and `expiration_at`.
pub record CertificateValue : Type 0 where
  pub key : ℕ
  pub cert : ℕ
  pub expiration_at : ℕ

abbrev pub same_certificate : CertificateValue → CertificateValue → Bool
same_certificate a b =
    (a.key == b.key) && (a.cert == b.cert) && (a.expiration_at == b.expiration_at)

pub data Save : Type 0 where
  insert_resource save_secret update_resource : ℕ → Save

pub record Db (V : Type 0) : Type 0 where
  pub secrets : Dict ℕ (Secret V)
  pub resources : Dict ℕ Target

module _ {V : Type 0} where
  -- `to_ua_resource`
  abbrev pub resource_of : Secret V → Target
  resource_of s = record {
    uuid = s.uuid;
    master = none;
    status = s.status;
    hash = s.hash;
    full_hash = s.hash;
    tracked_at = s.updated_at;
  }

  abbrev pub put_secret : Secret V → Db V → Db V
  put_secret s db = record db { secrets = Dict.put s.uuid s db.secrets }

  abbrev pub put_resource : Target → Db V → Db V
  put_resource t db = record db { resources = Dict.put t.uuid t db.resources }

  abbrev pub started : ℕ → Secret V → Secret V
  started now s = record s { status = in_progress; updated_at = now }

  -- The secret with the status `IN_PROGRESS`, and its resource, which follows it.
  unfoldable pub start_secret : (Save → Bool) → ℕ → Secret V → Target → Db V → Db V
  start_secret saves now s t db =
      let saved = put_secret (started now s) db in
      let followed =
        if saves (update_resource s.uuid)
        then put_resource (with_status now in_progress t) saved
        else saved in
      if saves (save_secret s.uuid) then followed else db

  -- `_actualize_new_secrets`
  unfoldable pub actualize_new_secrets : (Save → Bool) → ℕ → List (Secret V) → Db V → Db V
  unfolding start_secret
  actualize_new_secrets saves now [] db = db
  actualize_new_secrets saves now (s ∷ secrets) db =
      let made = start_secret saves now s (resource_of s) (put_resource (resource_of s) db) in
      actualize_new_secrets saves now secrets (if saves (insert_resource s.uuid) then made else db)

  -- `resource.update_value(new_resource)`
  abbrev pub update_value : Target → Secret V → Target
  update_value t s = record t { hash = s.hash }

  abbrev pub change_secret : (Save → Bool) → ℕ → Option (Secret V) → Target → Db V → Db V
  change_secret saves now none t db = db
  change_secret saves now (some s) t db = start_secret saves now s (update_value t s) db

  -- `_actualize_changed_secrets`, over the resources of the changed secrets.
  unfoldable pub actualize_changed_secrets :
      (Save → Bool) → ℕ → Dict ℕ (Secret V) → List Target → Db V → Db V
  unfolding start_secret
  actualize_changed_secrets saves now changed [] db = db
  actualize_changed_secrets saves now changed (t ∷ resources) db =
      actualize_changed_secrets saves now changed resources
        (change_secret saves now (Dict.get t.uuid changed) t db)

  -- `_actualize_deleted_secrets`
  unfoldable pub actualize_deleted_secrets : List ℕ → Db V → Db V
  actualize_deleted_secrets [] db = db
  actualize_deleted_secrets (uuid ∷ uuids) db =
      actualize_deleted_secrets uuids (record db { resources = Dict.remove uuid db.resources })

  -- What the resource takes over from the actual one, at the time of the secret.
  abbrev pub follow : Bool → Secret V → Target → Actual → Target
  follow updated s t a = record t {
    status = if updated then a.status else t.status;
    full_hash = a.full_hash;
    tracked_at = s.updated_at;
  }

  abbrev pub take_over : Bool → ℕ → Actual → V → Secret V → Secret V
  take_over updated now a value s = record s {
    status = if updated then a.status else s.status;
    value = value;
    updated_at = now;
  }

  module _ ⦃e : KeyType V⦄ where
    -- `_actualize_outdated_password` and `_actualize_outdated_certificate`: the value that the
    -- agent reports is taken over whenever it differs.
    unfoldable pub actualize_outdated :
        (Save → Bool) → ℕ → Secret V → Target → Actual → V → Db V → Db V
    unfolding status_updated
    actualize_outdated saves now s t a value db =
        let updated = status_updated t a in
        let s' = take_over updated now a value s in
        let followed = put_resource (follow updated s' t a) (put_secret s' db) in
        let changed = if saves (update_resource s.uuid) then followed else put_secret s' db in
        let only = put_resource (follow updated s t a) db in
        let same =
          if not (a.full_hash == t.full_hash) && saves (update_resource s.uuid) then only else db in
        if updated || not (e.same value s.value)
        then if saves (save_secret s.uuid) then changed else db
        else same
