-- ===== src/Network/Ipam.antt =====
-- exordos_core/network/ipam.py: pools of free addresses, one for each subnet.
-- An address is the integer of a `netaddr.IPAddress`; a pool is the list of its closed ranges.
mod Ranges
pub mod Pools
pub mod Allocation
pub mod Calculation
mod Cases
use genesis_core.Common.{
  ℕ, ◌+◌, ◌-◌, ◌==◌, ltb, leb, ◌&&◌, Bool, true, false, Option, none, some, List, [], ◌∷◌,
  if◌then◌else◌,
}
use genesis_core.Common.Dict
use genesis_core.Common.Dict.{Dict, nat_key}
use genesis_core.Common.Outcome.{Outcome, ok, raised, ◌>>=◌}
use genesis_core.Network.Model.{Subnet, Port}
pub use Ranges.{Pool}
unfoldable pub use Ranges.{occupy_ip, deallocate_in, take_first}

pub data IpamError : Type 0 where
  no_ips_available undefined_subnet ip_range_overlap : IpamError

abbrev pub in_range : ℕ × ℕ → ℕ → Bool
in_range r address = leb r.0 address && leb address r.1

-- `netaddr.IPSet(a) & netaddr.IPSet(b)` is not empty; `IPSet(None)` is.
abbrev pub overlaps : ℕ × ℕ → Option (ℕ × ℕ) → Bool
overlaps a none = false
overlaps a (some b) = leb a.0 b.1 && leb b.0 a.1

-- The loop of `calculate_pool` passes over a port with no address, or one in the discovery range.
unfoldable pub is_excluded : Option (ℕ × ℕ) → ℕ → Bool
is_excluded none address = false
is_excluded (some r) address = in_range r address

unfoldable pub occupy_address : Option (ℕ × ℕ) → Option ℕ → Pool → Pool
occupy_address discovery none pool = pool
occupy_address discovery (some address) pool =
    if is_excluded discovery address then pool else occupy_ip address pool

unfoldable pub occupy_ports : Option (ℕ × ℕ) → List Port → Pool → Pool
occupy_ports discovery [] pool = pool
occupy_ports discovery (port ∷ ports) pool =
    occupy_ports discovery ports (occupy_address discovery port.ipv4 pool)

abbrev pub bounds : Subnet → ℕ × ℕ
bounds subnet = elim subnet.ip_range [
  | none ↦ (subnet.cidr.first, subnet.cidr.last)
  | some pair ↦ pair
]

abbrev pub discovery_clash : Subnet → Bool
discovery_clash subnet = elim subnet.ip_discovery_range [
  | none ↦ false
  | some d ↦ overlaps d subnet.ip_range
]

unfoldable pub calculate_pool : Subnet → List Port → Outcome IpamError Pool
calculate_pool subnet ports =
    if discovery_clash subnet
    then raised ip_range_overlap
    else ok (occupy_ports subnet.ip_discovery_range ports (bounds subnet ∷ []))

-- `_pool_map`. A subnet is a key by its UUID.
pub record Ipam : Type 0 where
  pub pool_map : Dict ℕ Pool

unfoldable pub add_subnet : Subnet → List Port → Ipam → Outcome IpamError Ipam
add_subnet subnet ports ipam = do
  pool ← calculate_pool subnet ports
  ok (record { pool_map = Dict.put subnet.uuid pool ipam.pool_map })

-- The loop of `__init__`.
unfoldable pub add_subnets : List (Subnet × List Port) → Ipam → Outcome IpamError Ipam
add_subnets [] ipam = ok ipam
add_subnets ((subnet, ports) ∷ rest) ipam = add_subnet subnet ports ipam >>= add_subnets rest

unfoldable pub new_ipam : List (Subnet × List Port) → Outcome IpamError Ipam
unfolding add_subnets
new_ipam subnet_map = add_subnets subnet_map (record { pool_map = [] })

-- `allocate_ip` on the subnet's own pool. A target is occupied whether or not it was free.
unfoldable pub allocate_from : Option ℕ → Pool → Outcome IpamError (ℕ × Pool)
allocate_from target [] = raised no_ips_available
allocate_from none (first ∷ rest) = elim (take_first (first ∷ rest)) [
  | none ↦ raised no_ips_available
  | some taken ↦ ok taken
]
allocate_from (some target) (first ∷ rest) = ok (target, occupy_ip target (first ∷ rest))

unfoldable pub allocate_ip : ℕ → Option ℕ → Ipam → Outcome IpamError (ℕ × Ipam)
allocate_ip subnet target ipam = elim (Dict.get subnet ipam.pool_map) [
  | none ↦ raised undefined_subnet
  | some pool ↦ allocate_from target pool >>= λ taken.
      ok (taken.0, record { pool_map = Dict.put subnet taken.1 ipam.pool_map })
]

unfoldable pub deallocate_ip : ℕ → ℕ → Ipam → Outcome IpamError Ipam
deallocate_ip subnet address ipam = elim (Dict.get subnet ipam.pool_map) [
  | none ↦ raised undefined_subnet
  | some pool ↦
      ok (record { pool_map = Dict.put subnet (deallocate_in address pool) ipam.pool_map })
]
