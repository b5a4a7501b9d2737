-- ===== src/Compute/Builders/Machines/Model.antt =====
-- The machines, ports, pools and volumes that `PoolBuilderService` of
-- exordos_core/compute/builders/pool.py reads, with `PoolMachine` and `GuestMachine` of
-- exordos_core/compute/pool/dm/models.py.
use genesis_core.Common.{ℕ, Option}
use genesis_core.Common.Dict.{nat_key}
use genesis_core.Common.Int.{ℤ}
use genesis_core.Common.Text.{Text}
use genesis_core.Compute.Model.{NodeType, NodeStatus, MachineStatus}

pub data Boot : Type 0 where
  hd : (index : ℕ) → Boot
  cdrom network : Boot

pub data PortStatus : Type 0 where
  new in_progress active error : PortStatus

pub record Port : Type 0 where
  pub ipv4 : Option ℕ
  pub mask : Option ℕ
  pub mac : Text
  pub source : Option Text
  pub status : PortStatus

pub record Node : Type 0 where
  pub uuid : ℕ
  pub name : Text
  pub hostname : Option Text
  pub status : NodeStatus

pub record Pool : Type 0 where
  pub uuid : ℕ
  pub agent : Option ℕ
  pub avail_cores : ℤ
  pub avail_ram : ℤ

pub record Machine : Type 0 where
  pub uuid : ℕ
  pub name : Text
  pub project_id : ℕ
  pub cores : ℕ
  pub ram : ℕ
  pub machine_type : NodeType
  pub node : Node
  pub pool : Pool
  pub boot : Boot
  pub image : Option Text
  pub status : MachineStatus

pub record MachineVolume : Type 0 where
  pub index : ℕ
  pub image : Option Text

pub record PortInfo : Type 0 where
  pub ipv4 : Option ℕ
  pub mask : Option ℕ
  pub mac : Text
  pub source : Option Text

pub record PoolMachine : Type 0 where
  pub uuid : ℕ
  pub name : Text
  pub project_id : ℕ
  pub cores : ℕ
  pub ram : ℕ
  pub image : Option Text
  pub machine_type : NodeType
  pub boot : Boot
  pub node : ℕ
  pub pool : ℕ
  pub agent_uuid : Option ℕ
  pub port_info : PortInfo
  pub status : MachineStatus

pub record GuestMachine : Type 0 where
  pub uuid : ℕ
  pub image : Option Text
  pub agent_uuid : ℕ
  pub hostname : Text
  pub boot : Boot
  pub status : MachineStatus

pub data BuilderError : Type 0 where
  value_error index_error : BuilderError

-- `from_machine_and_port`; the status is the field's default.
unfoldable pub from_machine_and_port : Machine → Port → Option ℕ → PoolMachine
from_machine_and_port machine port agent = record {
  uuid = machine.uuid;
  name = machine.name;
  project_id = machine.project_id;
  cores = machine.cores;
  ram = machine.ram;
  image = machine.image;
  machine_type = machine.machine_type;
  boot = machine.boot;
  node = machine.node.uuid;
  pool = machine.pool.uuid;
  agent_uuid = agent;
  port_info = record { ipv4 = port.ipv4; mask = port.mask; mac = port.mac; source = port.source };
  status = MachineStatus.new;
}
