-- ===== src/Compute/Libvirt/Updates.antt =====
-- The agent's update of a volume, with the libvirt driver.
use genesis_core.Common.{
  ℕ, ◌≡◌, ◌&&◌, not, true, false, some, List, [], ◌∷◌, arith, inl, inr, Bool-cases, Option-cases,
}
use genesis_core.Common.Dict
use genesis_core.Common.Dict.{nat_key}
use genesis_core.Common.Outcome.{Outcome, ok, raised, Outcome-cases}
use genesis_core.Compute.Agent.Model.{Volume, Pool}
use genesis_core.Compute.Agent.Volumes.{
  actualize, attach_if_needed, from_dp_volume, is_root_volume, has_machine, resize_if_needed,
  update_on_dp,
}
use genesis_core.Compute.Agent.Volumes.Space.{has_space, actualize_lem}
use genesis_core.Compute.Libvirt.{libvirt_driver}
use genesis_core.Compute.Libvirt.Model.{
  Spec, Libvirt, LibvirtError, no_domain, no_storage_vol, vol_exist, operation_invalid, no_support,
  other_error, take, VirVolume, Texts, called, starts_with, type_of, volume_name,
}
use genesis_core.Compute.Libvirt.Listing.{
  found_or_legacy, get_volume, legacy_volume, reported, vir_volume2machine_volume,
}

module _ {S : Type 0} (texts : Texts) (lv : Libvirt S) where
  reported_index :
      (volume : VirVolume) (v : Volume) (h : reported texts lv volume ≡ ok v) → v.index ≡ 4096
  unfolding vir_volume2machine_volume
  reported_index volume v h = elim (Option-cases (texts.parse_uuid (take 36 volume.name))) [
    | inl other ↦ ground arith
    | inr (uuid, parsed) ↦ ground arith
  ]

  legacy_index :
      (uuid : ℕ) (volumes : List VirVolume) (v : Volume)
      (h : legacy_volume texts lv uuid volumes ≡ ok v)
      → v.index ≡ 4096
  legacy_index uuid [] v h = ground arith
  legacy_index uuid (w ∷ volumes) v h =
      elim (Bool-cases (starts_with (texts.show_uuid uuid) w.name)) [
        | inl named ↦ reported_index w v (ground arith)
        | inr other ↦ legacy_index uuid volumes v (ground arith)
      ]

  found_index :
      (uuid : ℕ) (volumes : List VirVolume) (o : Outcome LibvirtError VirVolume) (v : Volume)
      (h : found_or_legacy texts lv uuid volumes o ≡ ok v)
      → v.index ≡ 4096
  found_index uuid volumes (ok w) v h = reported_index w v h
  found_index uuid volumes (raised no_storage_vol) v h = legacy_index uuid volumes v h
  found_index uuid volumes (raised no_domain) v h = ground arith
  found_index uuid volumes (raised vol_exist) v h = ground arith
  found_index uuid volumes (raised operation_invalid) v h = ground arith
  found_index uuid volumes (raised no_support) v h = ground arith
  found_index uuid volumes (raised other_error) v h = ground arith

  get_volume_index :
      (uuid : ℕ) (s : S) (v : Volume) (h : get_volume texts lv uuid s ≡ ok v) → v.index ≡ 4096
  unfolding get_volume
  get_volume_index uuid s v h = elim (Outcome-cases (called (lv.storage_pool s))) [
    | inl (failure, failed) ↦ ground arith
    | inr (pool, known) ↦ elim (Outcome-cases (type_of pool)) [
      | inl (failure, failed) ↦ ground arith
      | inr (kind, typed) ↦
          found_index uuid (lv.volumes s)
            (lv.lookup_volume (volume_name kind (texts.show_uuid uuid)) s) v (ground arith)
    ]
  ]

module _ {S : Type 0} (texts : Texts) (spec : Spec) (lv : Libvirt S) where
  actualize_index :
      (self self' dp : Volume) (pool pool' : Pool) (s s' : S)
      (h : actualize (libvirt_driver texts spec lv) self dp pool s ≡ ok (self', pool', s'))
      → self'.index ≡ 4096
  unfolding actualize from_dp_volume
  actualize_index self self' dp pool pool' s s' h =
      let driver = libvirt_driver texts spec lv in
      elim (Outcome-cases (resize_if_needed driver self dp pool s)) [
        | inl (failure, failed) ↦ ground arith
        | inr (r, resizes) ↦ elim (Outcome-cases (attach_if_needed driver self r.0 r.1 r.2)) [
          | inl (failure, failed) ↦ ground arith
          | inr (a, attaches) ↦ elim (Outcome-cases (get_volume texts lv self.uuid a.1)) [
            | inl (failure, failed) ↦ ground arith
            | inr (now, gets) ↦
                let last = get_volume_index texts lv self.uuid a.1 now gets in ground arith
          ]
        ]
      ]

  -- With the libvirt driver an update that returns reports a volume at the last index, 4096, also a root
  -- volume, whose index was 0, and at the machine it was attached to before the update, also when the
  -- update moved it, when the volume has the space that it needs and does not wait for its machine.
  pub update_on_dp_reports :
      (self self' dp : Volume) (pool pool' : Pool) (s s' : S)
      (known : Dict.get self.uuid pool.volumes ≡ some dp)
      (goes : (is_root_volume self && not (has_machine self.machine pool)) ≡ false)
      (fits : has_space (libvirt_driver texts spec lv) self dp pool ≡ true)
      (h : update_on_dp (libvirt_driver texts spec lv) self pool s ≡ ok (self', pool', s'))
      → (self'.index ≡ 4096) × (self'.machine ≡ dp.machine)
  unfolding update_on_dp
  update_on_dp_reports self self' dp pool pool' s s' known goes fits h =
      let driver = libvirt_driver texts spec lv in
      let h' : actualize driver self dp pool s ≡ ok (self', pool', s') = ground arith in
      (
        actualize_index self self' dp pool pool' s s' h',
        (actualize_lem driver self self' dp pool pool' s s' h').1,
      )
