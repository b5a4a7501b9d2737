-- ===== src/Compute/Agent/Model.antt =====
-- What the agent of a pool works on: the machines and volumes of exordos_core/compute/dm/models.py as
-- the driver of a pool knows them, the methods of `AbstractPoolDriver` of
-- exordos_core/compute/pool/drivers/base.py that the agent calls, over an unknown state, and the
-- fields of `MetaPool` of exordos_core/compute/agents/universal/drivers/pool.py.
use genesis_core.Common.{ℕ, Bool, Option, List, [], ◌∷◌}
use genesis_core.Common.Dict
use genesis_core.Common.Dict.{Dict, nat_key}
use genesis_core.Common.Int.{ℤ, pos, minus}
use genesis_core.Common.Outcome.{Outcome, ok, raised}
use genesis_core.Common.Text.{Text}
use genesis_core.Compute.Model.{NodeType, MachineStatus, VolumeStatus, StoragePool}
use genesis_core.Compute.Builders.Machines.Model.{Boot, PortInfo}

pub record Volume : Type 0 where
  pub uuid : ℕ
  pub name : Text
  pub image : Option Text
  pub size : ℕ
  pub boot : Bool
  pub label : Option Text
  pub device_type : Text
  pub index : ℕ
  pub machine : Option ℕ
  pub project_id : ℕ
  pub status : VolumeStatus

pub record Machine : Type 0 where
  pub uuid : ℕ
  pub name : Text
  pub cores : ℕ
  pub ram : ℕ
  pub machine_type : NodeType
  pub node : Option ℕ
  pub boot : Boot
  pub image : Option Text
  pub project_id : ℕ
  pub status : MachineStatus

pub data DriverError : Type 0 where
  machine_not_found machine_exists volume_not_found volume_exists : DriverError
  volume_attached volume_not_attached port_not_attached : DriverError
  value_error libvirt_error : DriverError

-- A driver returns the object that it was given, with what it changed of it.
pub record Driver (S : Type 0) : Type 0 where
  pub create_volume : Volume → S → Outcome DriverError (Volume × S)
  pub delete_volume : Volume → S → Outcome DriverError S
  pub resize_volume : Volume → S → Outcome DriverError S
  pub attach_volume : Volume → S → Outcome DriverError S
  pub detach_volume : Volume → S → Outcome DriverError S
  pub get_volume : ℕ → S → Outcome DriverError Volume
  pub create_machine : Machine → List Volume → List PortInfo → S → Outcome DriverError (Machine × S)
  pub delete_machine : Machine → S → Outcome DriverError S
  pub get_machine : ℕ → S → Outcome DriverError (Machine × List PortInfo)
  pub set_machine_cores : Machine → ℕ → S → Outcome DriverError (Machine × S)
  pub set_machine_ram : Machine → ℕ → S → Outcome DriverError (Machine × S)
  pub recreate_machine : Machine → List PortInfo → S → Outcome DriverError S

-- `MetaPool`; its dictionaries hold the objects that the driver listed.
pub record Pool : Type 0 where
  pub all_cores : ℤ
  pub all_ram : ℤ
  pub avail_cores : ℤ
  pub avail_ram : ℤ
  pub storage_pools : List StoragePool
  pub machines : Dict ℕ Machine
  pub ports : Dict ℕ (List PortInfo)
  pub volumes : Dict ℕ Volume

-- The agent's own exceptions, and those of the driver that it does not catch.
pub data AgentError : Type 0 where
  resource_not_found root_volume_not_found : AgentError
  pool_missing : AgentError
  driver_failed : DriverError → AgentError

-- A call of the driver.
abbrev pub asked : {A : Type 0} → Outcome DriverError A → Outcome AgentError A
asked (raised failure) = raised (driver_failed failure)
asked (ok a) = ok a

-- What `list_pool_resources` returns.
pub record Resources : Type 0 where
  pub all_cores : ℕ
  pub all_ram : ℕ
  pub storage_pools : List StoragePool
  pub machines : List (Machine × List PortInfo)
  pub volumes : List Volume

abbrev pub by_uuid : {A B : Type 0} → (A → ℕ) → (A → B) → List A → Dict ℕ B → Dict ℕ B
by_uuid uuid value [] d = d
by_uuid uuid value (a ∷ rest) d = by_uuid uuid value rest (Dict.put (uuid a) (value a) d)

unfoldable pub without_all : {A : Type 0} → (A → ℕ) → Dict ℕ A → ℤ → ℤ
without_all amount [] total = total
without_all amount ((uuid, a) ∷ rest) total = without_all amount rest (minus total (amount a))

-- `MetaPool.restore_from_dp`; `cores_scaled` and `ram_scaled` are the products with the ratios.
unfoldable pub restore_pool : (cores_scaled ram_scaled : ℕ → ℕ) → Resources → Pool
unfolding without_all
restore_pool cores_scaled ram_scaled found =
    let machines = by_uuid (λ m. m.0.uuid) (λ m. m.0) found.machines [] in
    let cores = pos (cores_scaled found.all_cores) in
    let ram = pos (ram_scaled found.all_ram) in
    record {
      all_cores = cores;
      all_ram = ram;
      avail_cores = without_all (λ (m : Machine). m.cores) machines cores;
      avail_ram = without_all (λ (m : Machine). m.ram) machines ram;
      storage_pools = found.storage_pools;
      machines = machines;
      ports = by_uuid (λ m. m.0.uuid) (λ m. m.1) found.machines [];
      volumes = by_uuid (λ (v : Volume). v.uuid) (λ v. v) found.volumes [];
    }
