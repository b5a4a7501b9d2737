-- ===== src/Network/Plane/Networks.antt =====
-- `_actualize_network` of exordos_core/network/service.py.
use genesis_core.Common.{ℕ, none, some, List, [], ◌∷◌, if◌then◌else◌}
use genesis_core.Common.Dict
use genesis_core.Common.Dict.{Dict, KeyType, nat_key, string_key}
use genesis_core.Common.Outcome.{Outcome, ok, raised}
use genesis_core.Network.Plane.{
  TargetPort, PlaneSubnet, Driver, State, PlaneError, driver_failed, unknown_port, Event,
  subnet_created, subnet_deleted, index, only_in, actualize_subnet,
}

abbrev pub log_of : Outcome PlaneError State → List Event
log_of (ok s) = s.log
log_of (raised (driver_failed log)) = log
log_of (raised (unknown_port log)) = log

abbrev pub done : Driver → Event → List Event → List Event
done driver event log = if driver.saves event then event ∷ log else log

unfoldable pub each_done : Driver → List Event → List Event → List Event
each_done driver [] log = log
each_done driver (event ∷ events) log = each_done driver events (done driver event log)

abbrev pub Targets : Type 0
Targets = List (PlaneSubnet × List TargetPort)

abbrev pub subnet_uuid : PlaneSubnet × List TargetPort → ℕ
subnet_uuid target = target.0.uuid

unfoldable pub creations : List (PlaneSubnet × List TargetPort) → List Event
creations [] = []
creations (target ∷ targets) = subnet_created target.0 ∷ creations targets

unfoldable pub deletions : List PlaneSubnet → List Event
deletions [] = []
deletions (subnet ∷ subnets) = subnet_deleted subnet ∷ deletions subnets

-- "Actualize subnets": an exception ends the subnet, not the loop.
unfoldable pub actualize_subnets :
    Driver → Dict ℕ PlaneSubnet → Dict ℕ (PlaneSubnet × List TargetPort) → List Event → List Event
actualize_subnets driver [] targets log = log
actualize_subnets driver ((k, actual) ∷ rest) targets log = elim (Dict.get k targets) [
  | none ↦ actualize_subnets driver rest targets log
  | some target ↦
      actualize_subnets driver rest targets
        (log_of (actualize_subnet driver actual target.0 target.1 log))
]

unfoldable pub actualize_network : Driver → Targets → List Event → Outcome PlaneError (List Event)
unfolding each_done creations deletions actualize_subnets
actualize_network driver subnet_map log = elim driver.list_subnets [
  | none ↦ raised (driver_failed log)
  | some listed ↦
      let actual = index (λ (s : PlaneSubnet). s.uuid) listed [] in
      let targets = index subnet_uuid subnet_map [] in
      let created = each_done driver (creations (only_in targets actual)) log in
      let deleted = each_done driver (deletions (only_in actual targets)) created in
      ok (actualize_subnets driver actual targets deleted)
]
