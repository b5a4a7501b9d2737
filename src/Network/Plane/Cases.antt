-- ===== src/Network/Plane/Cases.antt =====
-- A driver on which `_actualize_subnet` runs, and the theorem at it.
use genesis_core.Common.{ℕ, ◌+◌, ◌≡◌, refl, true, false, none, some, List, [], ◌∷◌}
use genesis_core.Common.Dict
use genesis_core.Common.Dict.{nat_key}
use genesis_core.Common.Outcome.{ok}
use genesis_core.Network.Model.{PortStatus, new, active}
use genesis_core.Network.Plane.{PlanePort, TargetPort, PlaneSubnet, Driver, State, actualize_subnet}
use genesis_core.Network.Plane.Agreement.{agrees, actualize_subnet-agrees}

abbrev plane_port : ℕ → PortStatus → PlanePort
plane_port uuid status = record {
  uuid = uuid;
  subnet = 1;
  target_ipv4 = none;
  ipv4 = some (10 + uuid);
  mask = some 255;
  mac = some "52:54:00:00:00:01";
  interface = none;
  status = status;
}

abbrev plane_subnet : PlaneSubnet
plane_subnet = record {
  uuid = 1;
  cidr = record { first = 10; last = 20; netmask = 255 };
  next_server = none;
}

-- It lists the ports 2 and 4, makes every port active, and no row can be saved.
abbrev driver : Driver
driver = record {
  list_subnets = some (plane_subnet ∷ []);
  list_ports = λ subnet. some (plane_port 2 active ∷ plane_port 4 active ∷ []);
  update_subnet = λ subnet. none;
  create_ports = λ ports. some (plane_port 3 active ∷ []);
  saves = λ event. false;
}

abbrev target_ports : List TargetPort
target_ports =
    record { base = record (plane_port 2 new) { ipv4 = none }; default_network = none }
    ∷ record { base = plane_port 3 new; default_network = none }
    ∷ []

actualize_subnet-agrees_example :
    (s : State) × (actualize_subnet driver plane_subnet plane_subnet target_ports [] ≡ ok s)
    × (agrees (plane_port 2 active) (Dict.get 2 s.ports) ≡ true)
unfolding Dict.get genesis_core.Network.Plane.index Dict.put
actualize_subnet-agrees_example =
    actualize_subnet-agrees driver plane_subnet plane_subnet target_ports []
      (plane_port 2 active ∷ plane_port 4 active ∷ []) 2 (plane_port 2 active) refl refl refl refl
