-- ===== src/Compute/Libvirt/Volumes.antt =====
-- The calls of `LibvirtPoolDriver` of exordos_core/compute/pool/drivers/libvirt.py that change a
-- volume.
use genesis_core.Common.{ℕ, zero, suc, ◌+◌, ltb, not, none, some, ◌++◌, any, length, if◌then◌else◌}
use genesis_core.Common.Outcome.{Outcome, ok, raised, ◌>>=◌}
use genesis_core.Common.Text.{Text, codes}
use genesis_core.Compute.Model.{VolumeStatus}
use genesis_core.Compute.Agent.Model.{
  Volume, DriverError, machine_not_found, volume_not_found, volume_exists, volume_attached,
  volume_not_attached, value_error,
}
use genesis_core.Compute.Libvirt.Model.{
  Libvirt, LibvirtError, no_domain, no_storage_vol, vol_exist, operation_invalid, no_support,
  Domain, VirVolume, Texts, zfs, called, type_of, volume_name, device_name, is_part,
  volume_extension, to_bytes,
}
use genesis_core.Compute.Libvirt.Listing.{find_attached}

module _ {S : Type 0} (lv : Libvirt S) where
  -- `_vir_volume_name` of the storage pool.
  unfoldable pub vir_volume_name : Text → S → Outcome DriverError Text
  unfolding volume_name
  vir_volume_name name s = do
    pool ← called (lv.storage_pool s)
    kind ← type_of pool
    ok (volume_name kind name)

  abbrev pub unless_exists : Outcome LibvirtError S → Outcome DriverError S
  unless_exists (raised vol_exist) = raised volume_exists
  unless_exists done = called done

  -- A pool of the type zfs is refreshed.
  abbrev pub refreshed : S → Outcome DriverError S
  refreshed s = do
    pool ← called (lv.storage_pool s)
    kind ← type_of pool
    elim kind [ zfs ↦ if pool.active then called (lv.refresh s) else ok s | _ ↦ ok s ]

  unfoldable pub create_volume : Volume → S → Outcome DriverError (Volume × S)
  unfolding volume_extension to_bytes
  create_volume volume s = do
    pool ← called (lv.storage_pool s)
    kind ← type_of pool
    created ←
        unless_exists
          (lv.create_volume (volume.name ++ volume_extension kind) (to_bytes volume.size) s)
    s' ← refreshed created
    ok (record volume { status = VolumeStatus.active }, s')

  -- The tries of a deletion: `left` more of them after this one.
  unfoldable pub delete_tries : ℕ → ℕ → Text → S → Outcome DriverError S
  delete_tries zero i name s = called (lv.delete_volume i name s)
  delete_tries (suc left) i name s =
      let rest = delete_tries left (i + 1) name s in
      elim (lv.delete_volume i name s) [ raised _ ↦ rest | ok s' ↦ ok s' ]

  -- A backend that needs no wiping is no failure.
  abbrev pub wiped : Text → S → Outcome DriverError S
  wiped name s = elim (lv.wipe name s) [ raised no_support ↦ ok s | done ↦ called done ]

  abbrev pub max_iters : ℕ
  max_iters = 20

  -- A volume that cannot be looked up counts as deleted.
  unfoldable pub delete_volume : Volume → S → Outcome DriverError S
  unfolding vir_volume_name delete_tries
  delete_volume volume s = vir_volume_name volume.name s >>= λ name.
      elim (lv.lookup_volume name s) [
        | raised _ ↦ ok s
        | ok v ↦ wiped name s >>= delete_tries max_iters 0 name
      ]

  abbrev pub machine_found : Outcome LibvirtError Domain → Outcome DriverError Domain
  machine_found (raised no_domain) = raised machine_not_found
  machine_found found = called found

  abbrev pub volume_found : Outcome LibvirtError VirVolume → Outcome DriverError VirVolume
  volume_found (raised no_storage_vol) = raised volume_not_found
  volume_found found = called found

  abbrev pub valid_or : DriverError → Outcome LibvirtError S → Outcome DriverError S
  valid_or failure (raised operation_invalid) = raised failure
  valid_or failure done = called done

  unfoldable pub attach_volume : Texts → Volume → S → Outcome DriverError S
  unfolding vir_volume_name is_part device_name
  attach_volume texts volume s = elim volume.machine [
    | none ↦ raised value_error
    | some machine ↦ machine_found (lv.lookup machine s) >>= λ domain.
        if any (λ disk. is_part volume.name (texts.show_disk disk)) domain.disks
        then raised volume_attached
        else (vir_volume_name volume.name s >>= λ name.
            volume_found (lv.lookup_volume name s) >>= λ v. valid_or volume_attached (
              lv.attach_disk machine
                (record {
                  device = codes "disk";
                  path = some v.path;
                  target = device_name (length domain.disks);
                })
                s))
  ]

  unfoldable pub detach_volume : Volume → S → Outcome DriverError S
  unfolding find_attached
  detach_volume volume s = elim volume.machine [
    | none ↦ raised value_error
    | some machine ↦ machine_found (lv.lookup machine s) >>= λ domain.
        elim (find_attached volume.name domain.disks) [
          | none ↦ raised volume_not_attached
          | some disk ↦ valid_or volume_not_attached (lv.detach_disk machine disk s)
        ]
  ]

  -- The domain of an attached volume is asked to resize it while it is active.
  unfoldable pub resize_attached : ℕ → Volume → Text → S → Outcome DriverError S
  unfolding find_attached to_bytes
  resize_attached machine volume name s = called (lv.lookup machine s) >>= λ domain.
      called (lv.is_active machine s) >>= λ active.
      if not active
      then called (lv.resize_volume name (to_bytes volume.size) s)
      else elim (find_attached volume.name domain.disks) [
        | none ↦ raised volume_not_attached
        | some disk ↦ called (lv.block_resize machine disk.target (to_bytes volume.size) s)
      ]

  unfoldable pub resize_volume : Volume → S → Outcome DriverError S
  unfolding vir_volume_name resize_attached to_bytes
  resize_volume volume s = vir_volume_name volume.name s >>= λ name.
      volume_found (lv.lookup_volume name s) >>= λ v.
      if ltb (to_bytes volume.size) v.size then raised value_error else elim volume.machine [
        | none ↦ called (lv.resize_volume name (to_bytes volume.size) s)
        | some machine ↦ resize_attached machine volume name s
      ]
