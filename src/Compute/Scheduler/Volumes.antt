-- ===== src/Compute/Scheduler/Volumes.antt =====
-- `_place_volume_into_pool` and `_build_machine_volume` of exordos_core/compute/scheduler/service.py.
-- A pool without storage pools makes `storage_pools[0]` raise, before anything has changed.
pub mod Placement
use Prim.Native.String.{String}
use text.Mathlib.Text.{◌==◌ as str_eq}
use genesis_core.Common.{
  ℕ, ◌-◌, ◌==◌, ltb, leb, ◌&&◌, not, Bool, true, false, Option, none, some, List, [], ◌∷◌, select,
  if◌then◌else◌,
}
use genesis_core.Common.Outcome.{Outcome, ok, raised, ◌>>=◌}
use genesis_core.Compute.Model.{
  StoragePool, lacks, allocate_capacity, Volume, MachineVolume, MachinePool, MachinePoolBundle,
}

pub data ScheduleError : Type 0 where
  no_storage_pool save_failed : ScheduleError

-- `pool.pool.storage_pools[0].allocate_capacity(size)`
unfoldable pub allocate_first : ℕ → List StoragePool → Outcome ScheduleError (List StoragePool)
unfolding allocate_capacity
allocate_first size [] = raised no_storage_pool
allocate_first size (storage ∷ rest) = ok (allocate_capacity size storage ∷ rest)

abbrev pub set_storage : List StoragePool → MachinePoolBundle → MachinePoolBundle
set_storage storage bundle = record bundle { pool = record bundle.pool { storage_pools = storage } }

abbrev pub new_volume : Volume → MachineVolume
new_volume volume = record {
  uuid = volume.uuid;
  index = 0;
  size = volume.size;
  image = volume.image;
  boot = volume.boot;
  label = volume.label;
  device_type = volume.device_type;
  project_id = volume.project_id;
  node_volume = some volume.uuid;
  pool = none;
  machine = none;
}

abbrev pub Placed : Type 0
Placed = MachineVolume × MachinePoolBundle

unfoldable pub build_machine_volume : Volume → MachinePoolBundle → Outcome ScheduleError Placed
unfolding allocate_first
build_machine_volume volume bundle = do
  storage ← allocate_first volume.size bundle.pool.storage_pools
  ok (new_volume volume, set_storage storage bundle)

abbrev pub same_image : Option String → Option String → Bool
same_image none none = true
same_image (some a) (some b) = str_eq a b
same_image _ _ = false

abbrev pub fits : Volume → MachineVolume → Bool
fits volume v = same_image v.image volume.image && leb v.size volume.size

-- `volumes.sort(key=lambda v: volume.size - v.size)` and `volumes[0]`: the sort is stable, so this
-- is the first of those with the least difference.
unfoldable pub closest : Volume → MachineVolume → List MachineVolume → MachineVolume
closest volume best [] = best
closest volume best (v ∷ vs) =
    closest volume (if ltb (volume.size - v.size) (volume.size - best.size) then v else best) vs

-- `pool.volumes.remove(pool_volume)`: models are equal by their UUID.
unfoldable pub remove_volume : ℕ → List MachineVolume → List MachineVolume
remove_volume k [] = []
remove_volume k (v ∷ vs) = if v.uuid == k then vs else v ∷ remove_volume k vs

abbrev is_short : ℕ → List StoragePool → Bool
is_short size [] = false
is_short size (storage ∷ _) = not (size == 0) && lacks storage size

unfoldable pub reuse_volume :
    Volume → MachineVolume → MachinePoolBundle → Outcome ScheduleError Placed
unfolding allocate_first remove_volume build_machine_volume
reuse_volume volume v bundle =
    let need_size = volume.size - v.size in
    if is_short need_size bundle.pool.storage_pools then build_machine_volume volume bundle else do
      storage ← allocate_first need_size bundle.pool.storage_pools
      ok (
        record v { node_volume = some volume.uuid },
        record (set_storage storage bundle) { volumes = remove_volume v.uuid bundle.volumes },
      )

unfoldable pub place_from :
    Volume → List MachineVolume → MachinePoolBundle → Outcome ScheduleError Placed
unfolding closest reuse_volume
place_from volume [] bundle = build_machine_volume volume bundle
place_from volume (v ∷ vs) bundle = reuse_volume volume (closest volume v vs) bundle

unfoldable pub place_volume_into_pool : Volume → MachinePoolBundle → Outcome ScheduleError Placed
unfolding place_from
place_volume_into_pool volume bundle = elim volume.image [
  | none ↦ build_machine_volume volume bundle
  | some _ ↦ place_from volume (select (fits volume) bundle.volumes) bundle
]
