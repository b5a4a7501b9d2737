-- ===== src/Network/Service.antt =====
-- exordos_core/network/service.py: the part of `_iteration` that gives ports to new nodes.
-- The random MAC and UUID of a port are arguments, and so is the database: `insert` says how
-- `port.insert()` ends.
pub mod Rows
pub mod Start
mod Addresses
mod Stale
mod Hardware
mod Cases
use Prim.Native.String.{String}
use genesis_core.Common.{
  ℕ, ◌==◌, Bool, true, false, Option, none, some, List, [], ◌∷◌, ◌++◌, if◌then◌else◌,
}
use genesis_core.Common.Outcome.{Outcome, ok, raised, ◌>>=◌}
use genesis_core.Network.Model.{Subnet, Port, new}
use genesis_core.Network.Ipam.{Ipam, IpamError, new_ipam, allocate_ip, deallocate_ip}

abbrev pub SubnetMap : Type 0
SubnetMap = List (Subnet × List Port)

-- A `NodeWithoutPorts`; `target_ipv4` is its `default_network[TARGET_IP_KEY]`, where that is set.
pub record Node : Type 0 where
  pub uuid : ℕ
  pub target_ipv4 : Option ℕ

pub record Draw : Type 0 where
  pub uuid : ℕ
  pub mac : String

-- `port.insert()` returns, raises a `ValueError` or raises something else.
pub data Insert : Type 0 where
  inserted value_error failed : Insert

abbrev pub is_subnet_match : Subnet → Bool
is_subnet_match subnet = elim subnet.next_server [ none ↦ true | some _ ↦ false ]

-- The `for ... else` loop of `_allocate_port`.
unfoldable pub find_subnet : SubnetMap → Option Subnet
find_subnet [] = none
find_subnet ((subnet, ports) ∷ rest) =
    if is_subnet_match subnet then some subnet else find_subnet rest

-- `subnet_map[subnet].append(port)`
unfoldable pub append_port : ℕ → Port → SubnetMap → SubnetMap
append_port k port [] = []
append_port k port ((subnet, ports) ∷ rest) =
    if subnet.uuid == k
    then (subnet, ports ++ port ∷ []) ∷ rest
    else (subnet, ports) ∷ append_port k port rest

abbrev pub make_port : Node → Draw → Subnet → ℕ → Port
make_port node draw subnet ip = record {
  uuid = draw.uuid;
  subnet = subnet.uuid;
  node = some node.uuid;
  target_ipv4 = node.target_ipv4;
  target_mask = elim node.target_ipv4 [ none ↦ none | some _ ↦ some subnet.cidr.netmask ];
  ipv4 = some ip;
  mask = some subnet.cidr.netmask;
  mac = draw.mac;
  source = some subnet.name;
  status = new;
}

-- `no_subnet` is the `ValueError`.
pub data PortError : Type 0 where
  no_subnet : PortError
  ipam_failed : IpamError → PortError

unfoldable pub allocate_on : Node → Draw → Subnet → Ipam → Outcome PortError (Port × Ipam)
allocate_on node draw subnet ipam = elim (allocate_ip subnet.uuid node.target_ipv4 ipam) [
  | raised e ↦ raised (ipam_failed e)
  | ok taken ↦ ok (make_port node draw subnet taken.0, taken.1)
]

unfoldable pub allocate_port : Node → Draw → Ipam → SubnetMap → Outcome PortError (Port × Ipam)
unfolding allocate_on
allocate_port node draw ipam subnet_map = elim (find_subnet subnet_map) [
  | none ↦ raised no_subnet
  | some subnet ↦ allocate_on node draw subnet ipam
]

-- What ends the iteration: an exception outside a `try`, or inside a handler.
pub data Crash : Type 0 where
  no_ipam : IpamError → Crash
  unbound_port no_address : Crash
  release_failed : IpamError → Crash

-- `port` is the variable of the loop, which keeps its value from round to round; `rows` are the
-- ports that the database holds, the latest first.
pub record State : Type 0 where
  pub ipam : Ipam
  pub subnet_map : SubnetMap
  pub rows : List Port
  pub port : Option Port

-- `ipam.deallocate_ip(port.subnet, port.ipv4)`
unfoldable pub release_address : Port → State → Outcome Crash State
release_address port state = elim port.ipv4 [
  | none ↦ raised no_address
  | some address ↦ elim (deallocate_ip port.subnet address state.ipam) [
    | raised e ↦ raised (release_failed e)
    | ok ipam ↦ ok (record state { ipam = ipam })
  ]
]

-- The handler `except Exception` of the loop over the VM nodes.
unfoldable pub release : State → Outcome Crash State
unfolding release_address
release state = elim state.port [
  | none ↦ raised unbound_port
  | some port ↦ release_address port state
]

unfoldable pub finish_insert : Insert → Port → State → Outcome Crash State
unfolding release
finish_insert inserted port bound = ok (record bound { rows = port ∷ bound.rows })
finish_insert value_error port bound = ok bound
finish_insert failed port bound = release bound

-- What follows a successful `_allocate_port`, which puts the port into the map.
unfoldable pub store_port : (Port → Insert) → Port → Ipam → State → Outcome Crash State
unfolding finish_insert
store_port insert port ipam state = finish_insert (insert port) port (record {
  ipam = ipam;
  subnet_map = append_port port.subnet port state.subnet_map;
  rows = state.rows;
  port = some port;
})

-- A round of the loop over the new VM nodes.
unfoldable pub place_node : (Port → Insert) → Node → Draw → State → Outcome Crash State
place_node insert node draw state = elim (allocate_port node draw state.ipam state.subnet_map) [
  | raised no_subnet ↦ ok state
  | raised (ipam_failed e) ↦ release state
  | ok made ↦ store_port insert made.0 made.1 state
]

unfoldable pub place_nodes : (Port → Insert) → List (Node × Draw) → State → Outcome Crash State
place_nodes insert [] state = ok state
place_nodes insert ((node, draw) ∷ rest) state =
    place_node insert node draw state >>= place_nodes insert rest

unfoldable pub finish_hw_insert : Insert → Port → Ipam → State → State
finish_hw_insert inserted port ipam state = record state {
  ipam = ipam;
  rows = port ∷ state.rows;
  subnet_map = append_port port.subnet port state.subnet_map;
}
finish_hw_insert _ port ipam state = record state { ipam = ipam }

unfoldable pub store_hw_port : (Port → Insert) → Port → Outcome IpamError (ℕ × Ipam) → State → State
unfolding finish_hw_insert
store_hw_port insert port (raised _) state = state
store_hw_port insert port (ok (address, ipam)) state =
    let port' : Port = record port { ipv4 = some address } in
    finish_hw_insert (insert port') port' ipam state

-- A round of the loop over the new HW ports: a failure is logged, and takes nothing back.
unfoldable pub place_hw_port : (Port → Insert) → Port → State → State
unfolding store_hw_port
place_hw_port insert port state =
    store_hw_port insert port (allocate_ip port.subnet none state.ipam) state

unfoldable pub place_hw_ports : (Port → Insert) → List Port → State → State
place_hw_ports insert [] state = state
place_hw_ports insert (port ∷ ports) state =
    place_hw_ports insert ports (place_hw_port insert port state)

abbrev pub start_state : SubnetMap → List Port → Ipam → State
start_state subnet_map rows ipam = record {
  ipam = ipam;
  subnet_map = subnet_map;
  rows = rows;
  port = none;
}

abbrev run_all : (Port → Insert) → List (Node × Draw) → List Port → State → Outcome Crash State
run_all insert nodes hw_ports state =
    place_nodes insert nodes state >>= λ after. ok (place_hw_ports insert hw_ports after)

-- Both loops. The IPAM is made for the first of the nodes and ports, so only if there is one.
unfoldable pub place_all :
    (Port → Insert) → List (Node × Draw) → List Port → SubnetMap → List Port → Outcome Crash State
place_all insert [] [] subnet_map rows = ok (start_state subnet_map rows (record { pool_map = [] }))
place_all insert nodes hw_ports subnet_map rows = elim (new_ipam subnet_map) [
  | raised e ↦ raised (no_ipam e)
  | ok ipam ↦ run_all insert nodes hw_ports (start_state subnet_map rows ipam)
]
