-- ===== src/Compute/Builders/Cases.antt =====
-- Machines, volumes and node sets on which the builders run, and the theorems at them.
use genesis_core.Common.{ℕ, ◌+◌, ◌≡◌, refl, true, false, Bool, none, some, List, [], ◌∷◌, map}
use genesis_core.Common.Dict
use genesis_core.Common.Dict.{nat_key}
use genesis_core.Common.Int.{pos}
use genesis_core.Common.Outcome.{ok}
use genesis_core.Common.Text.{codes}
use genesis_core.Compute.Model.{vm, NodeStatus, MachineStatus, VolumeStatus}
use genesis_core.Compute.Builders.Machines.{Built, built, derivatives_on_create_update}
use genesis_core.Compute.Builders.Machines.Outdating.{
  Outdated, derivatives_on_outdate, pool_pair, guest_pair,
}
use genesis_core.Compute.Builders.Machines.Model.{
  hd, network, Port, PortInfo, PortStatus, Pool, Machine, MachineVolume, PoolMachine, GuestMachine,
  from_machine_and_port,
}
use genesis_core.Compute.Builders.Machines.Lifecycle.{Stage, created, Coherent, Reached-Coherent}
use genesis_core.Compute.Builders.NodeSets
use genesis_core.Compute.Builders.NodeSets.{
  NodeSet, SetNode, node, actualize_infra, length, kept_statuses,
}
use genesis_core.Compute.Builders.NodeSets.Scaling.{actualize_infra_lem}
use genesis_core.Compute.Builders.Nodes
use genesis_core.Compute.Builders.Nodes.{actualize_volumes, by_uuid}
use genesis_core.Compute.Builders.Nodes.Disks.{actualize_volumes_lem}

abbrev main_port : Port
main_port = record {
  ipv4 = some 10;
  mask = some 24;
  mac = codes "a9:00";
  source = none;
  status = PortStatus.active;
}

abbrev boot_port : Port
boot_port = record {
  ipv4 = none;
  mask = none;
  mac = codes "a9:01";
  source = some (codes "boot");
  status = PortStatus.active;
}

abbrev in_boot : PortInfo → Bool
in_boot info = elim info.ipv4 [ none ↦ true | some _ ↦ false ]

abbrev the_pool : Pool
the_pool = record { uuid = 1; agent = some 2; avail_cores = pos 8; avail_ram = pos 8 }

abbrev the_machine : Machine
the_machine = record {
  uuid = 3;
  name = codes "web";
  project_id = 4;
  cores = 2;
  ram = 2;
  machine_type = vm;
  node = record { uuid = 5; name = codes "web"; hostname = none; status = NodeStatus.new };
  pool = the_pool;
  boot = network;
  image = none;
  status = MachineStatus.new;
}

abbrev the_volume : MachineVolume
the_volume = record { index = 0; image = some (codes "img") }

abbrev on_network : Machine
on_network = record the_machine { image = some (codes "img") }

abbrev new_machine : Built
new_machine = built on_network boot_port [] (some 2)

create_web :
    derivatives_on_create_update
      (the_pool ∷ [])
      boot_port
      []
      the_machine
      (main_port, the_volume)
      none
    ≡ ok new_machine
unfolding derivatives_on_create_update
create_web = refl

abbrev created_stage : Stage
created_stage = record {
  machine = new_machine.machine;
  pool_machine = new_machine.pool_machine;
  guest_machine = new_machine.guest_machine;
  reported = none;
}

Reached-Coherent_example :
    Coherent in_boot created_stage.machine created_stage.pool_machine created_stage.guest_machine
Reached-Coherent_example = Reached-Coherent in_boot created_stage (
    created (the_pool ∷ []) boot_port main_port [] the_machine the_volume new_machine refl refl
      create_web)

abbrev updated_machine : Built
updated_machine = built (record on_network { boot = hd 0 }) main_port [] (some 2)

abbrev flashed_guest : GuestMachine
flashed_guest = record new_machine.guest_machine { status = MachineStatus.flashed }

abbrev switched : Outdated
switched = record {
  machine = record on_network { boot = hd 0; status = MachineStatus.in_progress };
  pool_machine = from_machine_and_port (record on_network { boot = hd 0 }) main_port (some 2);
  guest_machine = record new_machine.guest_machine { boot = hd 0 };
}

abbrev active_pool : PoolMachine
active_pool = record new_machine.pool_machine { status = MachineStatus.active }

outdate_web :
    derivatives_on_outdate (the_pool ∷ []) (ok (main_port, the_volume)) on_network (
      pool_pair new_machine.pool_machine (some active_pool)
      ∷ guest_pair new_machine.guest_machine (some flashed_guest)
      ∷ [])
    ≡ ok switched
unfolding derivatives_on_outdate
outdate_web = refl

abbrev the_set : NodeSet ℕ
the_set = record {
  uuid = 1;
  name = codes "set";
  replicas = 2;
  cores = 1;
  ram = 1;
  node_type = vm;
  disk_spec = 0;
  status = NodeStatus.in_progress;
  nodes = [];
}

abbrev scaled_set : NodeSet ℕ × List (SetNode ℕ) × List ℕ
scaled_set =
    actualize_infra (λ set uuid. uuid) (λ set project. []) (λ uuid. codes "abcd") (λ i. i + 50) 9
      the_set 4 (6 ∷ []) (some (node 6 none NodeStatus.active) ∷ [])

-- Of two replicas one is on the data plane: the set waits for the other, which has a new identifier.
actualize_infra_example :
    (map (λ (n : SetNode ℕ). n.uuid) (scaled_set.1) ≡ (6 ∷ 51 ∷ []))
    × (NodeSets.is_active (scaled_set.0.status) ≡ false)
unfolding actualize_infra length kept_statuses
actualize_infra_example =
    actualize_infra_lem {SetVolume = ℕ} (λ set uuid. uuid) (λ set project. [])
      (λ uuid. codes "abcd") (λ i. i + 50) 9 the_set 4 (6 ∷ [])
      (some (node 6 none NodeStatus.active) ∷ []) refl

abbrev disk : ℕ → ℕ → Nodes.Volume
disk uuid size = record {
  uuid = uuid;
  index = 0;
  size = size;
  image = none;
  name = [];
  description = [];
  boot = true;
  device_type = [];
  label = none;
  status = VolumeStatus.active;
}

-- The first disk grows, the second leaves, and the third is new.
actualize_volumes_example :
    Dict.get 1
      (actualize_volumes
        (disk 1 20 ∷ disk 3 5 ∷ [])
        (disk 1 10 ∷ disk 2 5 ∷ [])
        ((1, disk 1 10) ∷ (2, disk 2 5) ∷ [])).1
    ≡ some (record (disk 1 20) { status = VolumeStatus.in_progress })
unfolding by_uuid Dict.get Dict.put Nodes.volume_differs Nodes.actualize_volume
actualize_volumes_example =
    actualize_volumes_lem 1 (disk 1 20 ∷ disk 3 5 ∷ []) (disk 1 10 ∷ disk 2 5 ∷ [])
      ((1, disk 1 10) ∷ (2, disk 2 5) ∷ [])
