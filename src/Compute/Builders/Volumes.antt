-- ===== src/Compute/Builders/Volumes.antt =====
-- The volumes of `PoolBuilderService` of exordos_core/compute/builders/pool.py. Of the pool of
-- a volume the first storage pool is used.
use genesis_core.Common.{
  ℕ, ◌+◌, ◌-◌, ◌==◌, ltb, not, Bool, true, false, Option, none, some, List, [], ◌∷◌, if◌then◌else◌,
}
use genesis_core.Compute.Model.{StoragePool, VolumeStatus, allocate_capacity}

pub record Volume : Type 0 where
  pub uuid : ℕ
  pub index : ℕ
  pub size : ℕ
  pub machine : Option ℕ
  pub status : VolumeStatus
  pub node_volume_status : VolumeStatus

-- `available >= target - actual`, as `capacity + actual >= capacity_provisioned + target`.
unfoldable pub has_enough_space_in_pool : List StoragePool → ℕ → ℕ → Bool
has_enough_space_in_pool [] target actual = false
has_enough_space_in_pool (storage ∷ _) target actual =
    not (ltb (storage.capacity + actual) (storage.capacity_provisioned + target))

-- What `_can_create_volume` deletes, to be scheduled again, or that it lets the volume be created.
pub data VolumeCreation : Type 0 where
  creates : VolumeCreation
  reschedules : VolumeCreation
  reschedules_with_machine : ℕ → VolumeCreation

abbrev pub reschedule : Volume → VolumeCreation
reschedule volume = elim volume.machine [
  | none ↦ reschedules
  | some machine ↦ if volume.index == 0 then reschedules_with_machine machine else reschedules
]

abbrev pub on_first : (StoragePool → StoragePool) → List StoragePool → List StoragePool
on_first f [] = []
on_first f (storage ∷ storages) = f storage ∷ storages

unfoldable pub can_create_volume : Volume → List StoragePool → VolumeCreation × List StoragePool
unfolding has_enough_space_in_pool allocate_capacity
can_create_volume volume storages =
    if has_enough_space_in_pool storages volume.size 0
    then (creates, on_first (allocate_capacity volume.size) storages)
    else (reschedule volume, storages)

-- `allocate_capacity(target.size - actual.size)`
abbrev pub reallocate : ℕ → ℕ → StoragePool → StoragePool
reallocate target actual storage = record storage {
  capacity_provisioned = (storage.capacity_provisioned + target) - actual;
}

abbrev pub failed_volume : Volume → Volume
failed_volume volume = record volume {
  status = VolumeStatus.error;
  node_volume_status = VolumeStatus.error;
}

-- The field `capacity_provisioned` takes no negative number; the space of the old volume is part of
-- what is provisioned.
unfoldable pub can_update_volume : Volume → ℕ → List StoragePool → Bool × Volume × List StoragePool
unfolding has_enough_space_in_pool
can_update_volume volume actual storages =
    if has_enough_space_in_pool storages volume.size actual
    then (true, volume, on_first (reallocate volume.size actual) storages)
    else (false, failed_volume volume, storages)
