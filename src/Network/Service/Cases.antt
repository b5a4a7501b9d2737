-- ===== src/Network/Service/Cases.antt =====
-- Inputs on which the loops of exordos_core/network/service.py run, and the theorems at them.
use genesis_core.Common.{ℕ, ◌≡◌, refl, true, false, none, some, List, [], ◌∷◌, arith, all}
use genesis_core.Common.Dict
use genesis_core.Common.Dict.{nat_key}
use genesis_core.Common.Outcome.{ok}
use genesis_core.Network.Model.{Subnet, Port, new}
use genesis_core.Network.Ipam.{Pool, Ipam, new_ipam}
use genesis_core.Network.Ipam.Pools.{IsValid}
use genesis_core.Network.Ipam.Allocation.{pool_of}
use genesis_core.Network.Service.{
  Node, Draw, Insert, inserted, find_subnet, make_port, State, place_node, place_nodes,
}
use genesis_core.Network.Service.Addresses.{place_nodes-IsConsistent}
use genesis_core.Network.Service.Rows.{apart, taken, IsConsistent}
use genesis_core.Network.Service.Start.{listed_rows, new_ipam-IsConsistent}
use genesis_core.Network.Service.Stale.{place_node_repeats}

abbrev office : Subnet
office = record {
  uuid = 7;
  name = "office";
  network = 1;
  cidr = record { first = 0; last = 255; netmask = 4294967040 };
  ip_range = some (10, 12);
  ip_discovery_range = none;
  next_server = none;
}

abbrev row : Port
row = record {
  uuid = 1;
  subnet = 7;
  node = none;
  target_ipv4 = none;
  target_mask = none;
  ipv4 = some 11;
  mask = none;
  mac = "52:54:00:00:00:01";
  source = none;
  status = new;
}

abbrev state_of : Pool → State
state_of pool = record {
  ipam = record { pool_map = (7, pool) ∷ [] };
  subnet_map = (office, row ∷ []) ∷ [];
  rows = row ∷ [];
  port = some row;
}

abbrev free_state : State
free_state = state_of ((10, 10) ∷ (12, 12) ∷ [])

abbrev full_state : State
full_state = state_of []

abbrev every : Port → Insert
every _ = inserted

abbrev nodes : List (Node × Draw)
nodes =
    (record { uuid = 20; target_ipv4 = none }, record { uuid = 30; mac = "52:54:00:00:00:02" })
    ∷ (record { uuid = 21; target_ipv4 = none }, record { uuid = 31; mac = "52:54:00:00:00:03" })
    ∷ []

pools-IsValid : (k : ℕ) → IsValid (pool_of free_state.ipam k)
unfolding Dict.get
pools-IsValid k = ground arith

row_held : all (taken free_state.ipam) free_state.rows ≡ true
unfolding Dict.get
row_held = refl

free-IsConsistent : IsConsistent free_state.ipam free_state.rows
free-IsConsistent = record { valid = pools-IsValid; held = row_held; separate = refl }

abbrev first_map : List (Subnet × List Port)
first_map = (office, row ∷ []) ∷ []

abbrev first_ipam : Ipam
first_ipam = free_state.ipam

first_made : new_ipam first_map ≡ ok first_ipam
unfolding new_ipam genesis_core.Network.Ipam.add_subnet Dict.put
    genesis_core.Network.Ipam.calculate_pool genesis_core.Network.Ipam.occupy_ports
    genesis_core.Network.Ipam.occupy_address genesis_core.Network.Ipam.is_excluded
    genesis_core.Network.Ipam.occupy_ip
first_made = refl

new_ipam-IsConsistent_example : IsConsistent first_ipam (listed_rows first_map)
unfolding genesis_core.Network.Ipam.is_excluded
new_ipam-IsConsistent_example =
    new_ipam-IsConsistent first_map refl ((omega arith, ((refl, refl), tt)), tt) refl first_made

office_found : find_subnet free_state.subnet_map ≡ some office
unfolding find_subnet
office_found = refl

place_nodes-IsConsistent_example :
    (state' : State) × (place_nodes every nodes free_state ≡ ok state')
    × IsConsistent state'.ipam state'.rows
unfolding Dict.get
place_nodes-IsConsistent_example =
    place_nodes-IsConsistent every nodes office free_state free-IsConsistent office_found
      (omega arith) (refl, (refl, tt))

full_exhausted : Dict.get 7 full_state.ipam.pool_map ≡ some []
unfolding Dict.get
full_exhausted = refl

abbrev late : Node
late = record { uuid = 22; target_ipv4 = none }

abbrev late_draw : Draw
late_draw = record { uuid = 32; mac = "52:54:00:00:00:04" }

place_node_repeats_example :
    (one two : State) × (place_node every late late_draw full_state ≡ ok one)
    × (place_node every late late_draw one ≡ ok two)
    × (two.rows ≡ make_port late late_draw office 11 ∷ row ∷ [])
    × (apart two.rows ≡ false)
place_node_repeats_example =
    place_node_repeats every late late_draw office full_state office_found full_exhausted row 11
      refl refl refl late late_draw [] refl refl refl
