-- ===== src/Compute/Agent/Cases.antt =====
-- A driver that counts its calls, a pool on it, and the theorems on the agent at them.
use genesis_core.Common.{ℕ, ◌+◌, ◌≡◌, refl, true, false, none, some, [], ◌∷◌}
use genesis_core.Common.Dict
use genesis_core.Common.Dict.{nat_key}
use genesis_core.Common.Int.{pos}
use genesis_core.Common.Outcome.{ok}
use genesis_core.Common.Text.{codes}
use genesis_core.Compute.Model.{vm, MachineStatus, VolumeStatus}
use genesis_core.Compute.Builders.Machines.Model.{network, PortInfo}
use genesis_core.Compute.Agent.Model.{Volume, Machine, Driver, Pool}
use genesis_core.Compute.Agent.Volumes
use genesis_core.Compute.Agent.Volumes.{is_root_volume}
use genesis_core.Compute.Agent.Volumes.Space.{within, update_on_dp_storage, dump_to_dp-within}
use genesis_core.Compute.Agent.Machines
use genesis_core.Compute.Agent.Machines.{MetaMachine}
use genesis_core.Compute.Agent.Machines.Room.{has_room, updates, run, run-has_room}

abbrev data_volume : Volume
data_volume = record {
  uuid = 1;
  name = codes "data";
  image = none;
  size = 10;
  boot = false;
  label = none;
  device_type = [];
  index = 1;
  machine = none;
  project_id = 2;
  status = VolumeStatus.active;
}

-- The volume grows and is attached.
abbrev wanted : Volume
wanted = record data_volume { size = 30; machine = some 3 }

abbrev web : Machine
web = record {
  uuid = 3;
  name = codes "web";
  cores = 2;
  ram = 4;
  machine_type = vm;
  node = none;
  boot = network;
  image = none;
  project_id = 2;
  status = MachineStatus.active;
}

abbrev port : PortInfo
port = record { ipv4 = some 10; mask = some 24; mac = codes "a9:00"; source = some (codes "net") }

abbrev counting : Driver ℕ
counting = record {
  create_volume = λ v n. ok (v, n + 1);
  delete_volume = λ v n. ok (n + 1);
  resize_volume = λ v n. ok (n + 1);
  attach_volume = λ v n. ok (n + 1);
  detach_volume = λ v n. ok (n + 1);
  get_volume = λ uuid n. ok wanted;
  create_machine = λ machine volumes ports n. ok (machine, n + 1);
  delete_machine = λ machine n. ok (n + 1);
  get_machine = λ uuid n. ok (record web { cores = 6 }, port ∷ []);
  set_machine_cores = λ machine cores n. ok (record machine { cores = cores }, n + 1);
  set_machine_ram = λ machine ram n. ok (record machine { ram = ram }, n + 1);
  recreate_machine = λ machine ports n. ok (n + 1);
}

abbrev the_pool : Pool
the_pool = record {
  all_cores = pos 8;
  all_ram = pos 8;
  avail_cores = pos 6;
  avail_ram = pos 4;
  storage_pools = record { capacity = 100; capacity_provisioned = 10 } ∷ [];
  machines = (3, web) ∷ [];
  ports = (3, port ∷ []) ∷ [];
  volumes = (1, data_volume) ∷ [];
}

abbrev updated_pool : Pool
updated_pool = record the_pool { volumes = (1, wanted) ∷ [] }

grows :
    Volumes.update_on_dp counting wanted the_pool 0
    ≡ ok (record wanted { machine = none }, updated_pool, 2)
unfolding Volumes.update_on_dp Dict.get Dict.put
grows = refl

update_on_dp_storage_example : updated_pool.storage_pools ≡ the_pool.storage_pools
update_on_dp_storage_example =
    update_on_dp_storage counting wanted (record wanted { machine = none }) the_pool updated_pool 0
      2 grows

abbrev second : Volume
second = record data_volume { uuid = 5; machine = some 3; status = VolumeStatus.new }

abbrev filled_pool : Pool
filled_pool = record the_pool {
  storage_pools = record { capacity = 100; capacity_provisioned = 20 } ∷ [];
}

creates_second : Volumes.dump_to_dp counting second the_pool 0 ≡ ok (second, filled_pool, 2)
unfolding Volumes.dump_to_dp Dict.get
creates_second = refl

dump_to_dp-within_example : within filled_pool.storage_pools ≡ true
dump_to_dp-within_example =
    dump_to_dp-within counting second second the_pool filled_pool 0 2 creates_second refl

abbrev larger : MetaMachine
larger = record {
  uuid = 3;
  name = codes "web";
  cores = 6;
  ram = 4;
  status = MachineStatus.active;
  machine_type = vm;
  node = none;
  boot = network;
  image = none;
  project_id = 2;
  port_info = port;
}

abbrev smaller_pool : Pool
smaller_pool = record the_pool { avail_cores = pos 2 }

gets_cores : run counting (updates larger) the_pool 0 ≡ ok (larger, smaller_pool, 1)
unfolding Machines.update_on_dp Dict.get
gets_cores = refl

run-has_room_example : has_room smaller_pool ≡ true
run-has_room_example =
    run-has_room counting (updates larger) larger the_pool smaller_pool 0 1 gets_cores refl
