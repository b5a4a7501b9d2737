-- ===== src/Compute/Model.antt =====
-- The records of exordos_core/compute/dm/models.py and of
-- exordos_core/compute/scheduler/driver/base.py that the scheduler works on. UUIDs are numbers.
use Prim.Native.String.{String}
use genesis_core.Common.{ℕ, ◌+◌, ltb, Bool, Option, List}
use genesis_core.Common.Int.{ℤ}

-- A `ThinStoragePool`. `capacity` is the value of its property, an integer made from a float.
pub record StoragePool : Type 0 where
  pub capacity : ℕ
  pub capacity_provisioned : ℕ

-- `available < size`, where `available` is `capacity - capacity_provisioned`.
abbrev pub lacks : StoragePool → ℕ → Bool
lacks storage size = ltb storage.capacity (storage.capacity_provisioned + size)

unfoldable pub allocate_capacity : ℕ → StoragePool → StoragePool
allocate_capacity size storage = record storage {
  capacity_provisioned = storage.capacity_provisioned + size;
}

pub data NodeType : Type 0 where
  vm hw : NodeType

pub data NodeStatus : Type 0 where
  new scheduled in_progress started active error : NodeStatus

pub data MachineStatus : Type 0 where
  new scheduled in_progress started active idle error flashed need_reschedule : MachineStatus

pub data VolumeStatus : Type 0 where
  new in_progress active error : VolumeStatus

pub record Volume : Type 0 where
  pub uuid : ℕ
  pub size : ℕ
  pub image : Option String
  pub boot : Bool
  pub label : String
  pub device_type : String
  pub project_id : ℕ
  pub node : Option ℕ
  pub pool : Option ℕ

pub record MachineVolume : Type 0 where
  pub uuid : ℕ
  pub index : ℕ
  pub size : ℕ
  pub image : Option String
  pub boot : Bool
  pub label : String
  pub device_type : String
  pub project_id : ℕ
  pub node_volume : Option ℕ
  pub pool : Option ℕ
  pub machine : Option ℕ

pub record MachinePool : Type 0 where
  pub uuid : ℕ
  pub avail_cores : ℤ
  pub avail_ram : ℤ
  pub storage_pools : List StoragePool

pub record Node : Type 0 where
  pub uuid : ℕ
  pub name : String
  pub cores : ℕ
  pub ram : ℕ
  pub node_type : NodeType
  pub status : NodeStatus
  pub pool : Option ℕ
  pub project_id : ℕ

pub record Machine : Type 0 where
  pub uuid : ℕ
  pub name : String
  pub cores : ℕ
  pub ram : ℕ
  pub machine_type : NodeType
  pub status : MachineStatus
  pub node : Option ℕ
  pub pool : Option ℕ
  pub project_id : ℕ

pub record NodeBundle : Type 0 where
  pub node : Node
  pub volumes : List Volume

pub record MachineBundle : Type 0 where
  pub machine : Machine
  pub volumes : List MachineVolume

pub record MachinePoolBundle : Type 0 where
  pub pool : MachinePool
  pub volumes : List MachineVolume
