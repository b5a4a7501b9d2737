-- ===== src/Network/Plane/Agreement.antt =====
-- What `_actualize_subnet` leaves in the ports of the database.
use genesis_core.Common.{
  ℕ, ◌&&◌, not, Bool, true, false, Option, none, some, List, [], ◌∷◌, ◌≡◌, refl, arith,
  Option-cases, inl, inr,
}
use genesis_core.Common.Dict
use genesis_core.Common.Dict.{Dict, nat_key, get, put, get-put}
use genesis_core.Common.Dict.Updates.{is_present, distinct, distinct-put}
use genesis_core.Common.Outcome.{Outcome, ok}
use genesis_core.Network.Plane.{
  PlanePort, TargetPort, PlaneSubnet, Driver, State, PlaneError, Event, option_same, status_same,
  differs, index, only_in, adopt, adopt_all, save_port, has_port, ports_created, bases,
  create_ports, delete_ports, take_status, actualize_port, actualize_ports, update_subnet,
  actualize_subnet,
}

-- The port has the status, the address and the mask that the driver lists.
abbrev pub agrees : PlanePort → Option TargetPort → Bool
agrees a none = false
agrees a (some t) = status_same t.base.status a.status && not (differs t.base a)

option_same_refl : (a : Option ℕ) → option_same a a ≡ true
option_same_refl none = refl
option_same_refl (some a) = ground arith

actualize_port-agrees :
    (driver : Driver) (a : PlanePort) (t : TargetPort) (log : List Event)
    → agrees a (some (actualize_port driver a t log).0) ≡ true
unfolding actualize_port take_status
actualize_port-agrees driver a t log =
    ground (arith, option_same_refl a.ipv4, option_same_refl a.mask)

abbrev not_in : ℕ → Dict ℕ PlanePort → Bool
not_in k actual = not (is_present (Dict.get k actual))

actualize_ports_others :
    (driver : Driver) (actual : Dict ℕ PlanePort) (k : ℕ) (s : State)
    → not_in k actual ≡ true
    → Dict.get k (actualize_ports driver actual s).ports ≡ Dict.get k s.ports
unfolding actualize_ports Dict.get
actualize_ports_others driver [] k s h = refl
actualize_ports_others driver ((j, a) ∷ actual) k s h = elim (Option-cases (Dict.get j s.ports)) [
  | inl missing ↦ ground (arith, actualize_ports_others driver actual k s)
  | inr (t, found) ↦
      let next : State = record {
        ports = Dict.put j (actualize_port driver a t s.log).0 s.ports;
        log = (actualize_port driver a t s.log).1;
      } in
      ground (
        arith,
        actualize_ports_others driver actual k next,
        get-put j k (actualize_port driver a t s.log).0 s.ports,
      )
]

actualize_ports_agree :
    (driver : Driver) (actual : Dict ℕ PlanePort) (k : ℕ) (a : PlanePort) (s : State)
    → distinct actual ≡ true
    → Dict.get k actual ≡ some a
    → is_present (Dict.get k s.ports) ≡ true
    → agrees a (Dict.get k (actualize_ports driver actual s).ports) ≡ true
unfolding actualize_ports Dict.get
actualize_ports_agree driver [] k a s d h known = cc
actualize_ports_agree driver ((j, b) ∷ actual) k a s d h known =
    elim (Option-cases (Dict.get j s.ports)) [
      | inl missing ↦ ground (arith, actualize_ports_agree driver actual k a s)
      | inr (t, found) ↦
          let next : State = record {
            ports = Dict.put j (actualize_port driver b t s.log).0 s.ports;
            log = (actualize_port driver b t s.log).1;
          } in
          ground (
            arith,
            actualize_ports_agree driver actual k a next,
            actualize_ports_others driver actual k next,
            actualize_port-agrees driver b t s.log,
            get-put j k (actualize_port driver b t s.log).0 s.ports,
          )
    ]

abbrev pub all_known : List PlanePort → Dict ℕ TargetPort → Bool
all_known [] ports = true
all_known (p ∷ ps) ports = is_present (Dict.get p.uuid ports) && all_known ps ports

-- Taking over what the driver made keeps the set of ports.
all_known-put :
    (ps : List PlanePort) (k : ℕ) (t : TargetPort) (ports : Dict ℕ TargetPort)
    → all_known ps ports ≡ true
    → all_known ps (Dict.put k t ports) ≡ true
all_known-put [] k t ports h = refl
all_known-put (p ∷ ps) k t ports h =
    ground (arith, all_known-put ps k t ports, get-put k p.uuid t ports)

abbrev Keeps : ℕ → Outcome PlaneError State → Type 0
Keeps k o = (s : State) × (o ≡ ok s) × (is_present (Dict.get k s.ports) ≡ true)

adopt_all-Keeps :
    (driver : Driver) (ps : List PlanePort) (k : ℕ) (s : State)
    → all_known ps s.ports ≡ true
    → is_present (Dict.get k s.ports) ≡ true
    → Keeps k (adopt_all driver ps s)
unfolding adopt_all
adopt_all-Keeps driver [] k s h known = (s, refl, known)
adopt_all-Keeps driver (p ∷ ps) k s h known = elim (Option-cases (Dict.get p.uuid s.ports)) [
  | inl missing ↦ ground arith
  | inr (t, found) ↦
      let next : State = record {
        ports = Dict.put p.uuid (adopt p t) s.ports;
        log = save_port driver (not (has_port t.default_network)) (adopt p t) s.log;
      } in
      let (s', run, still) =
        adopt_all-Keeps driver ps k next
          (all_known-put ps p.uuid (adopt p t) s.ports (ground arith))
          (ground (arith, get-put p.uuid k (adopt p t) s.ports)) in
      (s', ground arith, still)
]

abbrev pub answer_known : Option (List PlanePort) → Dict ℕ TargetPort → Bool
answer_known none ports = true
answer_known (some made) ports = all_known made ports

create_ports-Keeps :
    (driver : Driver) (ps : List PlanePort) (k : ℕ) (s : State)
    → answer_known (driver.create_ports ps) s.ports ≡ true
    → is_present (Dict.get k s.ports) ≡ true
    → Keeps k (create_ports driver ps s)
unfolding create_ports
create_ports-Keeps driver [] k s h known = (s, refl, known)
create_ports-Keeps driver (p ∷ ps) k s h known =
    elim (Option-cases (driver.create_ports (p ∷ ps))) [
      | inl failed ↦ (s, ground arith, known)
      | inr (made, answered) ↦
          let next : State = record s { log = ports_created (p ∷ ps) ∷ s.log } in
          let (s', run, still) = adopt_all-Keeps driver made k next (ground arith) known in
          (s', ground arith, still)
    ]

index-distinct :
    {V : Type 0} (uuid : V → ℕ) (vs : List V) (d : Dict ℕ V)
    → distinct d ≡ true
    → distinct (index uuid vs d) ≡ true
unfolding index
index-distinct uuid [] d h = h
index-distinct uuid (v ∷ vs) d h =
    index-distinct uuid vs (Dict.put (uuid v) v d) (distinct-put (uuid v) v d h)

abbrev pub actual_ports : List PlanePort → Dict ℕ PlanePort
actual_ports listed = index (λ (p : PlanePort). p.uuid) listed []

abbrev pub target_index : List TargetPort → Dict ℕ TargetPort
target_index targets = index (λ (t : TargetPort). t.base.uuid) targets []

delete_ports-ports :
    (driver : Driver) (ps : List PlanePort) (s : State) → (delete_ports driver ps s).ports ≡ s.ports
unfolding delete_ports
delete_ports-ports driver [] s = refl
delete_ports-ports driver (p ∷ ps) s = ground arith

-- When the driver lists its ports and, of the ports that it is asked to make, returns only such as
-- are in the database, `_actualize_subnet` returns, and every port that both sides had then has the
-- status, the address and the mask that the driver listed, whichever saves fail.
pub actualize_subnet-agrees :
    (driver : Driver) (actual target : PlaneSubnet) (targets : List TargetPort) (log : List Event)
    (listed : List PlanePort) (k : ℕ) (a : PlanePort)
    → driver.list_ports actual ≡ some listed
    → answer_known
        (driver.create_ports (bases (only_in (target_index targets) (actual_ports listed))))
        (target_index targets)
      ≡ true
    → Dict.get k (actual_ports listed) ≡ some a
    → is_present (Dict.get k (target_index targets)) ≡ true
    → (s : State) × (actualize_subnet driver actual target targets log ≡ ok s)
      × (agrees a (Dict.get k s.ports) ≡ true)
actualize_subnet-agrees driver actual target targets log listed k a lists known here there =
    let start : State = record {
      ports = target_index targets;
      log = (update_subnet driver actual target log).1;
    } in
    let missing = bases (only_in (target_index targets) (actual_ports listed)) in
    let (s, run, still) = create_ports-Keeps driver missing k start known there in
    let extra = only_in (actual_ports listed) (target_index targets) in
    let s' = delete_ports driver extra s in
    let kept = delete_ports-ports driver extra s in
    let agreed =
      actualize_ports_agree driver (actual_ports listed) k a s'
        (index-distinct (λ (p : PlanePort). p.uuid) listed [] refl) here (ground arith) in
    (
      actualize_ports driver (actual_ports listed) s',
      unfold actualize_subnet in ground arith,
      agreed,
    )
