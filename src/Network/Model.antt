-- ===== src/Network/Model.antt =====
-- The subnets and ports of exordos_core/compute/dm/models.py, with the fields that the network
-- service reads. UUIDs and addresses are numbers; a range has its first and last address.
use Prim.Native.String.{String}
use genesis_core.Common.{ℕ, Option}

-- What the code reads of a `netaddr.IPNetwork`.
pub record Cidr : Type 0 where
  pub first : ℕ
  pub last : ℕ
  pub netmask : ℕ

pub record Subnet : Type 0 where
  pub uuid : ℕ
  pub name : String
  pub network : ℕ
  pub cidr : Cidr
  pub ip_range : Option (ℕ × ℕ)
  pub ip_discovery_range : Option (ℕ × ℕ)
  pub next_server : Option String

pub data PortStatus : Type 0 where
  new in_progress active error : PortStatus

pub record Port : Type 0 where
  pub uuid : ℕ
  pub subnet : ℕ
  pub node : Option ℕ
  pub target_ipv4 : Option ℕ
  pub target_mask : Option ℕ
  pub ipv4 : Option ℕ
  pub mask : Option ℕ
  pub mac : String
  pub source : Option String
  pub status : PortStatus
