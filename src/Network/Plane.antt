-- ===== src/Network/Plane.antt =====
-- `_actualize_subnet` of exordos_core/network/service.py: the comparison
-- of the subnets and ports of the database with those that the driver of the network lists.
-- The driver is a parameter; what is asked of it, and each row that is saved, goes to a log, the
-- latest first. Sets of UUIDs are run through in the order of the dictionaries that they come from.
mod Model
pub mod Networks
pub mod Agreement
mod Cases
use Prim.Native.String.{String}
use genesis_core.Common.{
  ℕ, ◌==◌, ◌&&◌, ◌||◌, not, Bool, true, false, Option, none, some, List, [], ◌∷◌, ◌++◌,
  if◌then◌else◌,
}
use genesis_core.Common.Dict
use genesis_core.Common.Dict.{Dict, KeyType, nat_key, string_key}
use genesis_core.Common.Dict.Updates.{is_present}
use genesis_core.Common.Outcome.{Outcome, ok, raised, ◌>>=◌}
pub use Model.*
use genesis_core.Network.Model.{Cidr, PortStatus, new, in_progress, active, error}

-- `{p.uuid: p for p in ports}`
unfoldable pub index : {V : Type 0} → (V → ℕ) → List V → Dict ℕ V → Dict ℕ V
index uuid [] d = d
index uuid (v ∷ vs) d = index uuid vs (Dict.put (uuid v) v d)

-- The values of `a` under the keys of `a.keys() - b.keys()`.
unfoldable pub only_in : {V W : Type 0} → Dict ℕ V → Dict ℕ W → List V
only_in [] b = []
only_in ((k, v) ∷ a) b =
    let rest = only_in a b in if is_present (Dict.get k b) then rest else v ∷ rest

pub record State : Type 0 where
  pub ports : Dict ℕ TargetPort
  pub log : List Event

abbrev pub network_of : PlanePort → DefaultNetwork
network_of p = record {
  subnet = p.subnet;
  port = p.uuid;
  ipv4 = p.ipv4;
  target_ipv4 = p.target_ipv4;
  mask = p.mask;
  mac = p.mac;
}

-- `target_port.update()` behind `update_default_network`, whose failure comes before it.
unfoldable pub save_port : Driver → Bool → TargetPort → List Event → List Event
save_port driver node_too t log =
    let with_node = node_saved t ∷ log in
    let saved = if driver.saves (port_saved t) then port_saved t ∷ log else log in
    let saved_both = if driver.saves (port_saved t) then port_saved t ∷ with_node else with_node in
    if node_too then if driver.saves (node_saved t) then saved_both else log else saved

abbrev pub has_port : Option DefaultNetwork → Bool
has_port d = is_present d

-- What the driver returned for a new port is taken over.
unfoldable pub adopt : PlanePort → TargetPort → TargetPort
adopt p t =
    let base = record t.base {
      status = p.status;
      ipv4 = p.ipv4;
      mask = p.mask;
      mac = p.mac;
      interface = p.interface;
    } in
    record {
      base = base;
      default_network =
          if has_port t.default_network then t.default_network else some (network_of p);
    }

unfoldable pub adopt_all : Driver → List PlanePort → State → Outcome PlaneError State
unfolding adopt save_port
adopt_all driver [] s = ok s
adopt_all driver (p ∷ ps) s = elim (Dict.get p.uuid s.ports) [
  | none ↦ raised (unknown_port s.log)
  | some t ↦ adopt_all driver ps (record {
    ports = Dict.put p.uuid (adopt p t) s.ports;
    log = save_port driver (not (has_port t.default_network)) (adopt p t) s.log;
  })
]

unfoldable pub bases : List TargetPort → List PlanePort
bases [] = []
bases (t ∷ ts) = t.base ∷ bases ts

-- "Create ports": nothing is asked of the driver where none is missing.
unfoldable pub create_ports : Driver → List PlanePort → State → Outcome PlaneError State
create_ports driver [] s = ok s
create_ports driver (p ∷ ps) s = elim (driver.create_ports (p ∷ ps)) [
  | none ↦ ok s
  | some made ↦ adopt_all driver made (record s { log = ports_created (p ∷ ps) ∷ s.log })
]

-- "Delete ports"
unfoldable pub delete_ports : Driver → List PlanePort → State → State
delete_ports driver [] s = s
delete_ports driver (p ∷ ps) s =
    if driver.saves (ports_deleted (p ∷ ps))
    then record s { log = ports_deleted (p ∷ ps) ∷ s.log }
    else s

abbrev pub differs : PlanePort → PlanePort → Bool
differs t a = not (option_same t.ipv4 a.ipv4) || not (option_same t.mask a.mask)

abbrev pub is_default : ℕ → Option DefaultNetwork → Bool
is_default uuid none = false
is_default uuid (some d) = d.port == uuid

unfoldable pub take_status : PlanePort → TargetPort → TargetPort
take_status a t = record {
  base = record t.base { status = a.status; ipv4 = a.ipv4; mask = a.mask };
  default_network =
      if is_default t.base.uuid t.default_network then some (network_of a) else t.default_network;
}

-- "Actualize a small set of fields so far" and "Actualize status". The driver is told of the
-- target's fields, and the target then takes over those that the driver had listed.
unfoldable pub actualize_port :
    Driver → PlanePort → TargetPort → List Event → TargetPort × List Event
unfolding take_status save_port
actualize_port driver a t log =
    let told =
      if differs t.base a && driver.saves (port_updated t.base)
      then port_updated t.base ∷ log
      else log in
    if not (status_same t.base.status a.status) || differs t.base a
    then (
      take_status a t,
      save_port driver (is_default t.base.uuid t.default_network) (take_status a t) told,
    )
    else (t, told)

unfoldable pub actualize_ports : Driver → Dict ℕ PlanePort → State → State
unfolding actualize_port
actualize_ports driver [] s = s
actualize_ports driver ((k, a) ∷ actual) s = elim (Dict.get k s.ports) [
  | none ↦ actualize_ports driver actual s
  | some t ↦
      let (t', log) = actualize_port driver a t s.log in
      actualize_ports driver actual (record { ports = Dict.put k t' s.ports; log = log })
]

abbrev pub cidr_same : Cidr → Cidr → Bool
cidr_same a b = (a.first == b.first) && (a.last == b.last) && (a.netmask == b.netmask)

-- The target takes over what the driver returns, whether or not its row can be saved then.
unfoldable pub taken_over :
    Driver → PlaneSubnet → Option PlaneSubnet → List Event → PlaneSubnet × List Event
taken_over driver target none log = (target, log)
taken_over driver target (some s) log =
    let target' = record target { cidr = s.cidr; next_server = s.next_server } in
    let log' = subnet_updated target ∷ log in
    (target', if driver.saves (subnet_saved target') then subnet_saved target' ∷ log' else log')

unfoldable pub update_subnet :
    Driver → PlaneSubnet → PlaneSubnet → List Event → PlaneSubnet × List Event
unfolding taken_over
update_subnet driver actual target log =
    let same =
      cidr_same target.cidr actual.cidr && option_same target.next_server actual.next_server in
    if same then (target, log) else taken_over driver target (driver.update_subnet target) log

unfoldable pub actualize_subnet :
    Driver → PlaneSubnet → PlaneSubnet → List TargetPort → List Event → Outcome PlaneError State
unfolding create_ports delete_ports actualize_ports
actualize_subnet driver actual_subnet target_subnet target_ports log =
    elim (driver.list_ports actual_subnet) [
      | none ↦ raised (driver_failed log)
      | some listed ↦
          let actual = index (λ (p : PlanePort). p.uuid) listed [] in
          let targets = index (λ (t : TargetPort). t.base.uuid) target_ports [] in
          let start : State = record {
            ports = targets;
            log = (update_subnet driver actual_subnet target_subnet log).1;
          } in
          create_ports driver (bases (only_in targets actual)) start >>= λ s.
          ok (actualize_ports driver actual (delete_ports driver (only_in actual targets) s))
    ]
