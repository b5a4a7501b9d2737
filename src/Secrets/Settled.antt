-- ===== src/Secrets/Settled.antt =====
-- What the handling of an outdated password or certificate leaves.
use genesis_core.Common.{
  ℕ, ◌==◌, ◌&&◌, ◌||◌, not, Bool, true, false, Option, none, some, ◌≡◌, arith,
}
use genesis_core.Common.Dict
use genesis_core.Common.Dict.{Dict, KeyType, nat_key, get-put, get-put_self}
use genesis_core.Resources.{is_active, Target, Actual, status_updated}
use genesis_core.Secrets.{
  Secret, Db, Save, take_over, follow, actualize_outdated, save_secret, update_resource,
}

-- The resource has the full hash of the report.
abbrev pub target_ok : Actual → Option Target → Bool
target_ok a none = false
target_ok a (some t) = t.full_hash == a.full_hash

module _ {V : Type 0} ⦃e : KeyType V⦄ where
  -- The secret holds the value, and is active only if it was, or if the agent reports so with the
  -- hash of the resource.
  abbrev pub secret_ok : Secret V → Target → Actual → V → Option (Secret V) → Bool
  secret_ok s t a value none = false
  secret_ok s t a value (some s') =
      e.same value s'.value
      && (not (is_active s'.status)
          || is_active s.status
          || (is_active a.status && (t.hash == a.hash)))

  -- When both saves succeed, the secret then holds what the agent reports, its resource has the full
  -- hash of the report, and the secret is active only if it was so before or the agent reports it to
  -- be with the hash of the resource.
  pub actualize_outdated_lem :
      (saves : Save → Bool) (now : ℕ) (s : Secret V) (t : Target) (a : Actual) (value : V)
      (db : Db V)
      → saves (save_secret s.uuid) ≡ true
      → saves (update_resource s.uuid) ≡ true
      → Dict.get s.uuid db.secrets ≡ some s
      → Dict.get t.uuid db.resources ≡ some t
      → (secret_ok s t a value
            (Dict.get s.uuid (actualize_outdated saves now s t a value db).secrets)
          ≡ true)
        × (target_ok a (Dict.get t.uuid (actualize_outdated saves now s t a value db).resources)
            ≡ true)
  unfolding actualize_outdated status_updated
  actualize_outdated_lem saves now s t a value db saved updated has_secret has_target =
      let s' = take_over (status_updated t a) now a value s in
      ground (
        arith,
        get-put_self s.uuid s' db.secrets,
        get-put_self t.uuid (follow (status_updated t a) s' t a) db.resources,
        get-put_self t.uuid (follow (status_updated t a) s t a) db.resources,
        e.same_iff value value,
      )
