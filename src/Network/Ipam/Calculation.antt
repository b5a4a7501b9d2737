-- ===== src/Network/Ipam/Calculation.antt =====
-- `calculate_pool` and `__init__` of exordos_core/network/ipam.py: what the first pools hold.
use genesis_core.Common.{
  ℕ, ◌≤◌, ◌≡◌, refl, ◌∙◌, ◌==◌, ◌&&◌, not, Bool, true, false, Option, none, some, List, [], ◌∷◌,
  arith, any, All, Bool-cases, inl, inr,
}
use genesis_core.Common.Dict
use genesis_core.Common.Dict.{Dict, nat_key}
use genesis_core.Common.Outcome.{Outcome, ok, raised, ok_chain}
use genesis_core.Network.Model.{Subnet, Port}
use genesis_core.Network.Ipam.{
  Pool, in_range, bounds, discovery_clash, is_excluded, occupy_address, occupy_ports,
  calculate_pool, Ipam, IpamError, ip_range_overlap, add_subnet, add_subnets, new_ipam,
}
use genesis_core.Network.Ipam.Pools.{contains, above, IsValid, above-occupy_ip, contains-occupy_ip}
use genesis_core.Network.Ipam.Allocation.{pool_of, pool_of-put}

-- The port holds the address, outside the discovery range.
abbrev pub holds_at : Option (ℕ × ℕ) → ℕ → Option ℕ → Bool
holds_at discovery b none = false
holds_at discovery b (some a) = not (is_excluded discovery a) && (b == a)

abbrev pub holds : Option (ℕ × ℕ) → ℕ → Port → Bool
holds discovery b port = holds_at discovery b port.ipv4

occupy_address_lem :
    (d : Option (ℕ × ℕ)) (b : ℕ) (address : Option ℕ) (p : Pool)
    → IsValid p
    → (above 0 (occupy_address d address p) ≡ true)
      × (contains b (occupy_address d address p) ≡ (contains b p && not (holds_at d b address)))
unfolding occupy_address
occupy_address_lem d b none p v = (v, ground arith)
occupy_address_lem d b (some a) p v =
    (ground (arith, above-occupy_ip a 0 p v), ground (arith, contains-occupy_ip a b 0 p v))

occupy_ports_lem :
    (d : Option (ℕ × ℕ)) (b : ℕ) (ports : List Port) (p : Pool)
    → IsValid p
    → (above 0 (occupy_ports d ports p) ≡ true)
      × (contains b (occupy_ports d ports p) ≡ (contains b p && not (any (holds d b) ports)))
unfolding occupy_ports
occupy_ports_lem d b [] p v = (v, ground arith)
occupy_ports_lem d b (port ∷ ports) p v =
    let one = occupy_address_lem d b port.ipv4 p v in
    let rest = occupy_ports_lem d b ports (occupy_address d port.ipv4 p) one.0 in
    (rest.0, rest.1 ∙ ground (arith, one.1))

-- The pool of a subnet is valid and holds exactly the addresses of its range that no port holds; a
-- port in the discovery range holds nothing. It is refused exactly on a clash of the two ranges.
pub calculate_pool_lem :
    (subnet : Subnet) (ports : List Port)
    → (bounds subnet).0 ≤ (bounds subnet).1
    → (discovery_clash subnet ≡ true → calculate_pool subnet ports ≡ raised ip_range_overlap)
      × (discovery_clash subnet ≡ false
          → (pool : Pool) × (calculate_pool subnet ports ≡ ok pool)
            × IsValid pool
            × ((b : ℕ)
                → contains b pool ≡ (
                    in_range (bounds subnet) b
                    && not (any (holds subnet.ip_discovery_range b) ports))))
unfolding calculate_pool
calculate_pool_lem subnet ports h =
    let d : Option (ℕ × ℕ) = subnet.ip_discovery_range in
    let p : Pool = bounds subnet ∷ [] in
    let v : IsValid p = ground arith in
    (
      λ clash. rw clash,
      λ clear. (
        occupy_ports d ports p,
        rw clear,
        (occupy_ports_lem d 0 ports p v).0,
        λ b. (occupy_ports_lem d b ports p v).1 ∙ ground arith,
      ),
    )

calculate_pool-IsValid :
    (subnet : Subnet) (ports : List Port) {pool : Pool}
    → (bounds subnet).0 ≤ (bounds subnet).1
    → calculate_pool subnet ports ≡ ok pool
    → IsValid pool
calculate_pool-IsValid subnet ports h made = elim (Bool-cases (discovery_clash subnet)) [
  | inl clash ↦ absurd (ground (arith, (calculate_pool_lem subnet ports h).0 clash))
  | inr clear ↦
      let (pool, same, v, _) = (calculate_pool_lem subnet ports h).1 clear in
      ground (arith, same, v)
]

abbrev AllValid : Ipam → Type 0
AllValid ipam = (k : ℕ) → IsValid (pool_of ipam k)

add_subnet-AllValid :
    (subnet : Subnet) (ports : List Port) (ipam : Ipam) {after : Ipam}
    → (bounds subnet).0 ≤ (bounds subnet).1
    → AllValid ipam
    → add_subnet subnet ports ipam ≡ ok after
    → AllValid after
unfolding add_subnet
add_subnet-AllValid subnet ports ipam {after} fits v h k =
    let stored : Pool → Outcome IpamError Ipam =
      λ pool. ok (record { pool_map = Dict.put subnet.uuid pool ipam.pool_map }) in
    let (pool, made, same) = ok_chain (calculate_pool subnet ports) stored {b = after} h in
    ground (
      arith,
      calculate_pool-IsValid subnet ports fits made,
      v k,
      pool_of-put ipam.pool_map subnet.uuid k pool,
    )

add_subnets-AllValid :
    (subnet_map : List (Subnet × List Port)) (ipam : Ipam) {after : Ipam}
    → All (λ entry. (bounds entry.0).0 ≤ (bounds entry.0).1) subnet_map
    → AllValid ipam
    → add_subnets subnet_map ipam ≡ ok after
    → AllValid after
unfolding add_subnets
add_subnets-AllValid [] ipam fits v h = λ k. ground (arith, v k)
add_subnets-AllValid ((subnet, ports) ∷ rest) ipam {after} fits v h =
    let (next, added, more) =
      ok_chain (add_subnet subnet ports ipam) (add_subnets rest) {b = after} h in
    add_subnets-AllValid rest next fits.1 (add_subnet-AllValid subnet ports ipam fits.0 v added)
      more

-- Every pool that `Ipam(subnet_map)` makes is valid.
pub new_ipam-IsValid :
    (subnet_map : List (Subnet × List Port)) {ipam : Ipam}
    → All (λ entry. (bounds entry.0).0 ≤ (bounds entry.0).1) subnet_map
    → new_ipam subnet_map ≡ ok ipam
    → (k : ℕ) → IsValid (pool_of ipam k)
unfolding new_ipam
new_ipam-IsValid subnet_map fits h =
    add_subnets-AllValid subnet_map (record { pool_map = [] }) fits (λ k. unfold Dict.get in refl) h
