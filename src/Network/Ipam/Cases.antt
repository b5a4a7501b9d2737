-- ===== src/Network/Ipam/Cases.antt =====
-- Inputs on which exordos_core/network/ipam.py runs, and the theorems at them.
use genesis_core.Common.{
  ℕ, ◌≡◌, refl, ◌&&◌, not, true, false, none, some, List, [], ◌∷◌, arith, any,
}
use genesis_core.Common.Dict
use genesis_core.Common.Dict.{nat_key}
use genesis_core.Common.Outcome.{ok, raised}
use genesis_core.Network.Model.{Subnet, Port, new}
use genesis_core.Network.Ipam.{
  Pool, ip_range_overlap, occupy_ip, occupy_ports, occupy_address, is_excluded, take_first, Ipam,
  in_range, discovery_clash, calculate_pool, add_subnet, new_ipam, allocate_from, allocate_ip,
  deallocate_ip,
}
use genesis_core.Network.Ipam.Pools.{contains, IsValid}
use genesis_core.Network.Ipam.Allocation.{
  pool_of, Took, allocate_ip-Took, allocate_ip_total, deallocate_ip-allocate_ip,
}
use genesis_core.Network.Ipam.Calculation.{holds, calculate_pool_lem}

abbrev pub lab : Subnet
lab = record {
  uuid = 7;
  name = "lab";
  network = 1;
  cidr = record { first = 0; last = 255; netmask = 4294967040 };
  ip_range = some (10, 12);
  ip_discovery_range = some (200, 210);
  next_server = none;
}

abbrev pub port_at : ℕ → ℕ → Port
port_at uuid address = record {
  uuid = uuid;
  subnet = 7;
  node = none;
  target_ipv4 = none;
  target_mask = none;
  ipv4 = some address;
  mask = none;
  mac = "52:54:00:00:00:01";
  source = none;
  status = new;
}

abbrev pub lab_ports : List Port
lab_ports = port_at 1 11 ∷ port_at 2 200 ∷ []

-- The pool of `lab` with its two ports: the second lies in the discovery range.
abbrev pub lab_ipam : Ipam
lab_ipam = record { pool_map = (7, (10, 10) ∷ (12, 12) ∷ []) ∷ [] }

calculated : new_ipam ((lab, lab_ports) ∷ []) ≡ ok lab_ipam
unfolding new_ipam add_subnet calculate_pool Dict.put occupy_ports occupy_address is_excluded
    occupy_ip
calculated = refl

abbrev lab_after : Ipam
lab_after = record { pool_map = (7, (12, 12) ∷ []) ∷ [] }

allocated : allocate_ip 7 none lab_ipam ≡ ok (10, lab_after)
unfolding allocate_ip allocate_from take_first Dict.get Dict.put
allocated = refl

lab-IsValid : IsValid (pool_of lab_ipam 7)
unfolding Dict.get
lab-IsValid = refl

lab_free : contains 12 (pool_of lab_ipam 7) ≡ true
unfolding Dict.get
lab_free = refl

allocate_ip-Took_example : Took 7 10 lab_ipam lab_after
allocate_ip-Took_example = allocate_ip-Took 7 none lab_ipam lab-IsValid allocated

allocate_ip_total_example : (r : ℕ × Ipam) × (allocate_ip 7 (some 12) lab_ipam ≡ ok r)
allocate_ip_total_example = allocate_ip_total 7 (some 12) lab_ipam 12 lab_free

deallocate_ip-allocate_ip_example :
    (final : Ipam) × (deallocate_ip 7 10 lab_after ≡ ok final)
    × ((j : ℕ) → pool_of final j ≡ pool_of lab_ipam j)
deallocate_ip-allocate_ip_example =
    deallocate_ip-allocate_ip 7 none lab_ipam {a = 10} {after = lab_after} lab-IsValid refl
      allocated

calculate_pool_example :
    (discovery_clash lab ≡ true → calculate_pool lab lab_ports ≡ raised ip_range_overlap)
    × (discovery_clash lab ≡ false
        → (pool : Pool) × (calculate_pool lab lab_ports ≡ ok pool)
          × IsValid pool
          × ((b : ℕ)
              → contains b pool
                ≡ (in_range (10, 12) b && not (any (holds (some (200, 210)) b) lab_ports))))
calculate_pool_example = calculate_pool_lem lab lab_ports (omega arith)
