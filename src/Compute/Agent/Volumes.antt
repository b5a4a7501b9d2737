-- ===== src/Compute/Agent/Volumes.antt =====
-- `MetaVolume` of exordos_core/compute/agents/universal/drivers/pool.py. A method is given the model
-- itself, the pool and the state of the driver, and returns what it leaves of them. An object of the
-- pool that a method changes is written back to the pool's dictionary.
pub mod Space
use genesis_core.Common.{
  ℕ, ◌-◌, ◌==◌, ◌&&◌, not, Bool, true, false, Option, none, some, List, [], ◌∷◌, if◌then◌else◌,
}
use genesis_core.Common.Dict
use genesis_core.Common.Dict.{nat_key}
use genesis_core.Common.Dict.Updates.{is_present}
use genesis_core.Common.Outcome.{Outcome, ok, raised, ◌>>=◌}
use genesis_core.Compute.Model.{VolumeStatus, StoragePool, allocate_capacity}
use genesis_core.Compute.Builders.Volumes.{has_enough_space_in_pool, on_first}
use genesis_core.Compute.Agent.Model.{
  Volume, Driver, DriverError, Pool, AgentError, asked, volume_attached, volume_not_attached,
  resource_not_found, driver_failed, pool_missing,
}

unfoldable pub from_dp_volume : Volume → Volume → Volume
from_dp_volume self dp = record self {
  name = dp.name;
  size = dp.size;
  index = dp.index;
  machine = dp.machine;
  device_type = dp.device_type;
  status = dp.status;
}

abbrev pub same_machine : Option ℕ → Option ℕ → Bool
same_machine none none = true
same_machine (some m) (some n) = m == n
same_machine _ _ = false

unfoldable pub is_root_volume : Volume → Bool
is_root_volume self = is_present self.machine && self.index == 0

abbrev pub has_machine : Option ℕ → Pool → Bool
has_machine none pool = false
has_machine (some machine) pool = is_present (Dict.get machine pool.machines)

unfoldable pub allocate : ℕ → Pool → Pool
unfolding allocate_capacity
allocate size pool = record pool {
  storage_pools = on_first (allocate_capacity size) pool.storage_pools;
}

abbrev pub put_volume : Volume → Pool → Pool
put_volume dp pool = record pool { volumes = Dict.put dp.uuid dp pool.volumes }

abbrev pub found : Volume → Pool → Outcome AgentError Volume
found self pool = elim (Dict.get self.uuid pool.volumes) [
  | none ↦ raised resource_not_found
  | some dp ↦ ok dp
]

unfoldable pub restore_from_dp : Volume → Option Pool → Outcome AgentError Volume
unfolding from_dp_volume
restore_from_dp self none = raised pool_missing
restore_from_dp self (some pool) = found self pool >>= λ dp. ok (from_dp_volume self dp)

module _ {S : Type 0} (driver : Driver S) where
  -- A volume that is attached already, or detached already, is no failure.
  abbrev pub unless_attached : S → Outcome DriverError S → Outcome AgentError S
  unless_attached s (raised volume_attached) = ok s
  unless_attached s done = asked done

  abbrev pub unless_detached : S → Outcome DriverError S → Outcome AgentError S
  unless_detached s (raised volume_not_attached) = ok s
  unless_detached s done = asked done

  unfoldable pub attach_volume : Volume → S → Outcome AgentError S
  attach_volume dp s = unless_attached s (driver.attach_volume dp s)

  unfoldable pub detach_volume : Volume → S → Outcome AgentError S
  detach_volume dp s =
      if is_present dp.machine then unless_detached s (driver.detach_volume dp s) else ok s

  -- `_actualize_attachment` of a volume whose machine differs, with the volume as it is then.
  unfoldable pub actualize_attachment : Volume → Volume → S → Outcome AgentError (Volume × S)
  unfolding attach_volume detach_volume
  actualize_attachment self dp s =
      let moved = record dp { machine = self.machine } in
      if not (is_present self.machine)
      then (detach_volume dp s >>= λ s'. ok (dp, s'))
      else (if not (is_present dp.machine)
          then (attach_volume moved s >>= λ s'. ok (moved, s'))
          else (detach_volume dp s >>= attach_volume moved >>= λ s'. ok (moved, s')))

  -- The end of `dump_to_dp`: a root volume is attached with its machine.
  abbrev pub attach_to_machine : Volume → Volume → Pool → S → Outcome AgentError (Volume × Pool × S)
  attach_to_machine self dp pool s =
      if has_machine self.machine pool && not (is_root_volume self)
      then (attach_volume dp s >>= λ s'. ok (self, pool, s'))
      else ok (self, pool, s)

  unfoldable pub dump_to_dp : Volume → Pool → S → Outcome AgentError (Volume × Pool × S)
  unfolding from_dp_volume is_root_volume attach_volume allocate has_enough_space_in_pool
  dump_to_dp self pool s = elim (Dict.get self.uuid pool.volumes) [
    | some dp ↦ attach_to_machine (from_dp_volume self dp) dp pool s
    | none ↦
        if has_enough_space_in_pool pool.storage_pools self.size 0
        then (asked (driver.create_volume (record self { status = VolumeStatus.new }) s)
            >>= λ created.
                attach_to_machine (from_dp_volume self created.0) created.0
                  (allocate self.size pool) created.1)
        else ok (record self { status = VolumeStatus.error }, pool, s)
  ]

  unfoldable pub delete_from_dp : Volume → Pool → S → Outcome AgentError S
  unfolding detach_volume
  delete_from_dp self pool s = do
    dp ← found self pool
    detached ← detach_volume dp s
    asked (driver.delete_volume dp detached)

  -- "Resize the volume". The object has the new size when the space is allocated, so what is allocated
  -- is the difference between the new size and itself.
  unfoldable pub resized : Volume → Volume → Pool → S → Outcome AgentError (Volume × Pool × S)
  unfolding allocate
  resized self dp pool s =
      let dp' = record dp { size = self.size } in
      asked (driver.resize_volume dp' s) >>= λ s'.
      ok (dp', allocate (self.size - dp'.size) (put_volume dp' pool), s')

  abbrev pub resize_if_needed : Volume → Volume → Pool → S → Outcome AgentError (Volume × Pool × S)
  resize_if_needed self dp pool s =
      if self.size == dp.size then ok (dp, pool, s) else resized self dp pool s

  abbrev pub attach_if_needed : Volume → Volume → Pool → S → Outcome AgentError (Pool × S)
  attach_if_needed self dp pool s =
      if same_machine self.machine dp.machine
      then ok (pool, s)
      else (actualize_attachment self dp s >>= λ moved. ok (put_volume moved.0 pool, moved.1))

  -- What `update_on_dp` does of a volume that has the space it needs.
  unfoldable pub actualize : Volume → Volume → Pool → S → Outcome AgentError (Volume × Pool × S)
  unfolding resized actualize_attachment from_dp_volume
  actualize self dp pool s = resize_if_needed self dp pool s >>= λ r.
      attach_if_needed self r.0 r.1 r.2 >>= λ a. asked (driver.get_volume self.uuid a.1) >>= λ now.
      ok (record (from_dp_volume self now) { machine = dp.machine }, a.0, a.1)

  unfoldable pub update_on_dp : Volume → Pool → S → Outcome AgentError (Volume × Pool × S)
  unfolding is_root_volume has_enough_space_in_pool actualize
  update_on_dp self pool s = found self pool >>= λ dp.
      if is_root_volume self && not (has_machine self.machine pool)
      then ok (self, pool, s)
      else (if not (self.size == dp.size)
            && not (has_enough_space_in_pool pool.storage_pools self.size dp.size)
          then ok (record self { status = VolumeStatus.error }, pool, s)
          else actualize self dp pool s)
