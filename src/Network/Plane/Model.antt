-- ===== src/Network/Plane/Model.antt =====
-- The ports, subnets and default networks of exordos_core/compute/dm/models.py that the comparison
-- with the data plane reads, the driver, and the log of what was done.
use Prim.Native.String.{String}
use genesis_core.Common.{ℕ, Bool, true, false, Option, none, some, List}
use genesis_core.Common.Dict.{KeyType, nat_key, string_key}
use genesis_core.Network.Model.{Cidr, PortStatus, new, in_progress, active, error}

-- `compute.dm.models.Port`
pub record PlanePort : Type 0 where
  pub uuid : ℕ
  pub subnet : ℕ
  pub target_ipv4 : Option ℕ
  pub ipv4 : Option ℕ
  pub mask : Option ℕ
  pub mac : Option String
  pub interface : Option String
  pub status : PortStatus

pub record DefaultNetwork : Type 0 where
  pub subnet : ℕ
  pub port : ℕ
  pub ipv4 : Option ℕ
  pub target_ipv4 : Option ℕ
  pub mask : Option ℕ
  pub mac : Option String

-- A port of the database, with the `default_network` of the node object that it refers to.
pub record TargetPort : Type 0 where
  pub base : PlanePort
  pub default_network : Option DefaultNetwork

pub record PlaneSubnet : Type 0 where
  pub uuid : ℕ
  pub cidr : Cidr
  pub next_server : Option String

pub data Event : Type 0 where
  subnet_created subnet_deleted subnet_updated subnet_saved : PlaneSubnet → Event
  ports_created ports_deleted : List PlanePort → Event
  port_updated : PlanePort → Event
  node_saved port_saved : TargetPort → Event

-- The driver and the database; `none` and `false` are exceptions.
pub record Driver : Type 0 where
  pub list_subnets : Option (List PlaneSubnet)
  pub list_ports : PlaneSubnet → Option (List PlanePort)
  pub update_subnet : PlaneSubnet → Option PlaneSubnet
  pub create_ports : List PlanePort → Option (List PlanePort)
  pub saves : Event → Bool

-- An exception, with the log by then.
pub data PlaneError : Type 0 where
  driver_failed unknown_port : List Event → PlaneError

abbrev pub option_same : {A : Type 0} ⦃e : KeyType A⦄ → Option A → Option A → Bool
option_same none none = true
option_same ⦃e⦄ (some a) (some b) = e.same a b
option_same _ _ = false

abbrev pub status_same : PortStatus → PortStatus → Bool
status_same new new = true
status_same in_progress in_progress = true
status_same active active = true
status_same error error = true
status_same _ _ = false
