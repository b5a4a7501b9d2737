-- ===== src/Network/Service/Start.antt =====
-- What `Ipam(subnet_map)` of exordos_core/network/ipam.py makes of the ports that the service of
-- exordos_core/network/service.py lists for each subnet.
use genesis_core.Common.{
  ℕ, ◌≤◌, ◌≡◌, refl, sym, ◌∙◌, ap, ◌==◌, ◌&&◌, if◌then◌else◌, not, Bool, true, false, Option, none,
  some, List, [], ◌∷◌, ◌++◌, arith, any, all, All, Bool-cases, inl, inr, Member,
}
use genesis_core.Common.Dict
use genesis_core.Common.Dict.{nat_key}
use genesis_core.Common.Outcome.{Outcome, ok, ok_chain}
use genesis_core.Network.Model.{Subnet, Port}
use genesis_core.Network.Ipam.{
  Pool, Ipam, IpamError, in_range, bounds, is_excluded, discovery_clash, calculate_pool, add_subnet,
  add_subnets, new_ipam,
}
use genesis_core.Network.Ipam.Pools.{contains}
use genesis_core.Network.Ipam.Calculation.{holds, calculate_pool_lem, new_ipam-IsValid}
use genesis_core.Network.Ipam.Allocation.{pool_of, pool_of-put}
use genesis_core.Network.Service.Rows.{taken_at, taken, apart, IsConsistent}

-- The address lies in the range of the subnet and in its discovery range.
abbrev pub hidden_at : Subnet → Option ℕ → Bool
hidden_at subnet none = false
hidden_at subnet (some a) = is_excluded subnet.ip_discovery_range a && in_range (bounds subnet) a

abbrev pub is_hidden : Subnet → Port → Bool
is_hidden subnet port = hidden_at subnet port.ipv4

-- The ports that are listed for a subnet are its own, and none of them is hidden.
abbrev pub IsListed : Subnet × List Port → Type 0
IsListed entry =
    ((bounds entry.0).0 ≤ (bounds entry.0).1)
    × All (λ port. (port.subnet ≡ entry.0.uuid) × (is_hidden entry.0 port ≡ false)) entry.1

abbrev pub keyed : ℕ → Subnet × List Port → Bool
keyed k entry = entry.0.uuid == k

abbrev pub distinct : List (Subnet × List Port) → Bool
distinct [] = true
distinct (entry ∷ rest) = not (any (keyed entry.0.uuid) rest) && distinct rest

abbrev pub listed_rows : List (Subnet × List Port) → List Port
listed_rows [] = []
listed_rows (entry ∷ rest) = entry.1 ++ listed_rows rest

any-holds :
    (d : Option (ℕ × ℕ)) (b : ℕ) (port : Port) (ports : List Port)
    → Member port ports
    → holds d b port ≡ true
    → any (holds d b) ports ≡ true
any-holds d b port [] m h = absurd m
any-holds d b port (p ∷ ports) (inl e) h = rw (e, h) refl
any-holds d b port (p ∷ ports) (inr m) h = let later = any-holds d b port ports m h in ground arith

module _ (subnet : Subnet) (ports : List Port) (pool : Pool)
    (known : (b : ℕ)
      → contains b pool
        ≡ (in_range (bounds subnet) b && not (any (holds subnet.ip_discovery_range b) ports))) where
  address_taken :
      (address : Option ℕ) (port : Port)
      → port.ipv4 ≡ address
      → Member port ports
      → hidden_at subnet address ≡ false
      → taken_at pool address ≡ true
  address_taken none port e m h = refl
  address_taken (some a) port e m h = elim (Bool-cases (is_excluded subnet.ip_discovery_range a)) [
    | inl excluded ↦ ground (arith, known a)
    | inr listed ↦
        let itself : holds subnet.ip_discovery_range a port ≡ true =
          rw (e, listed) (ground arith) in
        let held = any-holds subnet.ip_discovery_range a port ports m itself in
        ground (arith, known a)
  ]

  ports_taken :
      (k : ℕ) (ipam : Ipam) (some_ports : List Port)
      → pool_of ipam k ≡ pool
      → ((p : Port) → Member p some_ports → Member p ports)
      → All (λ port. (port.subnet ≡ k) × (is_hidden subnet port ≡ false)) some_ports
      → all (taken ipam) some_ports ≡ true
  ports_taken k ipam [] stored among listed = refl
  ports_taken k ipam (p ∷ ps) stored among ((own, seen), listed) =
      let one = address_taken p.ipv4 p refl (among p (inl refl)) seen in
      let rest = ports_taken k ipam ps stored (λ q m. among q (inr m)) listed in
      rw (own, stored, one) rest

all_append :
    (ipam : Ipam) (ps qs : List Port)
    → all (taken ipam) ps ≡ true
    → all (taken ipam) qs ≡ true
    → all (taken ipam) (ps ++ qs) ≡ true
all_append ipam [] qs h k = k
all_append ipam (p ∷ ps) qs h k = let rest = all_append ipam ps qs in ground (arith, rest)

calculated :
    (subnet : Subnet) (ports : List Port) (pool : Pool)
    → (bounds subnet).0 ≤ (bounds subnet).1
    → calculate_pool subnet ports ≡ ok pool
    → (b : ℕ)
    → contains b pool
      ≡ (in_range (bounds subnet) b && not (any (holds subnet.ip_discovery_range b) ports))
calculated subnet ports pool fits made b = elim (Bool-cases (discovery_clash subnet)) [
  | inl clash ↦ absurd (ground (arith, (calculate_pool_lem subnet ports fits).0 clash))
  | inr clear ↦
      let (p, same, _, known) = (calculate_pool_lem subnet ports fits).1 clear in
      ground (arith, same, known b)
]

add_subnet_stores :
    (subnet : Subnet) (ports : List Port) (ipam : Ipam) {after : Ipam}
    → add_subnet subnet ports ipam ≡ ok after
    → (pool : Pool) × (calculate_pool subnet ports ≡ ok pool)
      × ((k : ℕ) → pool_of after k ≡ (if subnet.uuid == k then pool else pool_of ipam k))
unfolding add_subnet
add_subnet_stores subnet ports ipam {after} h =
    let stored : Pool → Outcome IpamError Ipam =
      λ pool. ok (record { pool_map = Dict.put subnet.uuid pool ipam.pool_map }) in
    let (pool, made, same) = ok_chain (calculate_pool subnet ports) stored {b = after} h in
    (pool, made, λ k. ground (arith, pool_of-put ipam.pool_map subnet.uuid k pool))

-- Each subnet has the pool that is calculated for it, since no later one has its key.
add_subnets_pools :
    (subnet_map : List (Subnet × List Port)) (ipam : Ipam) {after : Ipam}
    → distinct subnet_map ≡ true
    → add_subnets subnet_map ipam ≡ ok after
    → ((k : ℕ) → any (keyed k) subnet_map ≡ false → pool_of after k ≡ pool_of ipam k)
      × All (λ entry. calculate_pool entry.0 entry.1 ≡ ok (pool_of after entry.0.uuid)) subnet_map
unfolding add_subnets
add_subnets_pools [] ipam {after} d h = (λ k away. ground arith, _)
add_subnets_pools ((subnet, ports) ∷ rest) ipam {after} d h =
    let (next, added, more) =
      ok_chain (add_subnet subnet ports ipam) (add_subnets rest) {b = after} h in
    let (pool, made, stored) = add_subnet_stores subnet ports ipam added in
    let (later, each) = add_subnets_pools rest next {after = after} (ground arith) more in
    let last : any (keyed subnet.uuid) rest ≡ false = ground arith in
    let itself : pool_of next subnet.uuid ≡ pool = stored subnet.uuid ∙ ground arith in
    (
      λ k away.
          let past : any (keyed k) rest ≡ false = ground arith in
          let other : (subnet.uuid == k) ≡ false = ground arith in
          later k past ∙ stored k ∙ rw other refl,
      (made ∙ ap ok (sym (later subnet.uuid last ∙ itself)), each),
    )

rows_taken :
    (ipam : Ipam) (subnet_map : List (Subnet × List Port))
    → All IsListed subnet_map
    → All (λ entry. calculate_pool entry.0 entry.1 ≡ ok (pool_of ipam entry.0.uuid)) subnet_map
    → all (taken ipam) (listed_rows subnet_map) ≡ true
rows_taken ipam [] listed each = refl
rows_taken ipam ((subnet, ports) ∷ rest) ((fits, own), listed) (made, each) =
    all_append ipam ports (listed_rows rest)
      (ports_taken subnet ports (pool_of ipam subnet.uuid)
        (calculated subnet ports (pool_of ipam subnet.uuid) fits made) subnet.uuid ipam ports refl
        (λ p m. m) own)
      (rows_taken ipam rest listed each)

bounds_of :
    (subnet_map : List (Subnet × List Port))
    → All IsListed subnet_map
    → All (λ entry. (bounds entry.0).0 ≤ (bounds entry.0).1) subnet_map
bounds_of [] listed = _
bounds_of (entry ∷ rest) ((fits, own), listed) = (fits, bounds_of rest listed)

-- When `Ipam(subnet_map)` is made of subnets with different UUIDs, each with its own ports and with
-- a range that does not end before it starts, when no port has an address that lies both in the
-- range and in the discovery range of its subnet, and when no two ports of one subnet have one
-- address, then every pool is valid, no address of a port is free, and no two ports of one subnet
-- have one address, as the loop over the nodes needs it.
pub new_ipam-IsConsistent :
    (subnet_map : List (Subnet × List Port)) {ipam : Ipam}
    → distinct subnet_map ≡ true
    → All IsListed subnet_map
    → apart (listed_rows subnet_map) ≡ true
    → new_ipam subnet_map ≡ ok ipam
    → IsConsistent ipam (listed_rows subnet_map)
unfolding new_ipam
new_ipam-IsConsistent subnet_map {ipam} d listed separate h = record {
  valid = new_ipam-IsValid subnet_map (bounds_of subnet_map listed) h;
  held =
      rows_taken ipam subnet_map listed
        (add_subnets_pools subnet_map (record { pool_map = [] }) d h).1;
  separate = separate;
}
