-- ===== src/Compute/Scheduler/Cases.antt =====
-- Inputs on which the scheduler of exordos_core/compute/scheduler runs, and the theorems at them.
use genesis_core.Common.{
  ◌<◌, ℕ, ◌+◌, ◌==◌, ltb, ◌≡◌, refl, ◌⊎◌, Bool, true, false, none, some, List, [], ◌∷◌, arith, All,
  length,
}
use genesis_core.Common.Int.{pos}
use genesis_core.Common.Outcome.{ok, raised}
use genesis_core.Compute.Model.{
  StoragePool, vm, NodeStatus, Volume, MachineVolume, NodeBundle, MachinePoolBundle,
}
use genesis_core.Compute.Scheduler.Volumes.{allocate_first, place_volume_into_pool, no_storage_pool}
use genesis_core.Compute.Scheduler.Volumes.Placement.{
  Built, Reused, place_volume_into_pool-Outcomes,
}
use genesis_core.Compute.Scheduler.Weights.{Floats, chosen, choose}
use genesis_core.Compute.Scheduler.Weights.Best.{IsOrdered, StandsAt, choose-best}
use genesis_core.Compute.Scheduler.Weights.Sums.{total}
use genesis_core.Compute.Scheduler.Pools.{cores_ram_filter, Row, schedule_on_pools}
use genesis_core.Compute.Scheduler.Affinity.{Allocation}
use genesis_core.Compute.Model.{Machine, MachineStatus}
use genesis_core.Compute.Scheduler.Pools.Capacity.{is_sound, schedule_on_pools-AllSound}

abbrev data_volume : Volume
data_volume = record {
  uuid = 1;
  size = 10;
  image = some "ubuntu";
  boot = true;
  label = "root";
  device_type = "disk";
  project_id = 0;
  node = some 5;
  pool = none;
}

abbrev plain_volume : Volume
plain_volume = record data_volume { image = none }

abbrev spare : ℕ → ℕ → MachineVolume
spare uuid size = record {
  uuid = uuid;
  index = 0;
  size = size;
  image = some "ubuntu";
  boot = true;
  label = "root";
  device_type = "disk";
  project_id = 0;
  node_volume = none;
  pool = some 3;
  machine = none;
}

abbrev storage : StoragePool
storage = record { capacity = 20; capacity_provisioned = 15 }

abbrev pool_with : List StoragePool → MachinePoolBundle
pool_with storages = record {
  pool = record { uuid = 3; avail_cores = pos 4; avail_ram = pos 4096; storage_pools = storages };
  volumes = spare 8 6 ∷ spare 9 8 ∷ spare 10 30 ∷ [];
}

abbrev pool : MachinePoolBundle
pool = pool_with (storage ∷ [])

abbrev pool_after : MachinePoolBundle
pool_after = record {
  pool = record {
    uuid = 3;
    avail_cores = pos 4;
    avail_ram = pos 4096;
    storage_pools = record { capacity = 20; capacity_provisioned = 17 } ∷ [];
  };
  volumes = spare 8 6 ∷ spare 10 30 ∷ [];
}

abbrev taken_volume : MachineVolume
taken_volume = record (spare 9 8) { node_volume = some 1 }

reused : place_volume_into_pool data_volume pool ≡ ok (taken_volume, pool_after)
unfolding place_volume_into_pool allocate_first
reused = refl

place_volume_into_pool-Outcomes_example :
    Built data_volume pool taken_volume pool_after
    ⊎ ((u : MachineVolume) × Reused data_volume pool taken_volume pool_after u)
place_volume_into_pool-Outcomes_example = place_volume_into_pool-Outcomes data_volume pool reused

failed_placement : place_volume_into_pool data_volume (pool_with []) ≡ raised no_storage_pool
unfolding place_volume_into_pool allocate_first
failed_placement = refl

-- Whole numbers stand for the floats of the weighers.
abbrev whole : Floats
whole = record {
  F = ℕ;
  zero_weight = 0;
  add = λ a b. a + b;
  lt = λ a b. ltb a b;
  eq = λ a b. a == b;
}

whole-IsOrdered : IsOrdered whole
whole-IsOrdered = record {
  lt_irrefl = λ a. ground arith;
  not_lt_trans = λ a b c h k. ground arith;
  lt_asymm = λ a b h. ground arith;
  eq_refl = λ a. ground arith;
  eq_not_lt = λ a b h. ground arith;
}

abbrev weigh : List MachinePoolBundle → List ℕ
weigh [] = []
weigh (p ∷ ps) = length p.volumes ∷ weigh ps

abbrev pools : List MachinePoolBundle
pools = pool_after ∷ pool ∷ []

chosen_pool : choose whole (weigh ∷ weigh ∷ []) pools ≡ chosen pool
unfolding choose
chosen_pool = refl

choose-best_example :
    (i : ℕ) × (i < length pools)
    × StandsAt whole pool i pools
    × ((j : ℕ)
        → j < length pools
        → ltb (total whole (weigh ∷ weigh ∷ []) pools i) (total whole (weigh ∷ weigh ∷ []) pools j)
          ≡ false)
choose-best_example =
    choose-best whole whole-IsOrdered (weigh ∷ weigh ∷ []) pools (refl, (refl, tt)) chosen_pool

abbrev node : NodeBundle
node = record {
  node = record {
    uuid = 5;
    name = "node";
    cores = 3;
    ram = 1024;
    node_type = vm;
    status = NodeStatus.new;
    pool = none;
    project_id = 0;
  };
  volumes = data_volume ∷ [];
}

abbrev saves : Row → Bool
saves _ = true

schedule_on_pools-AllSound_example :
    All
      (λ q. is_sound q ≡ true)
      (schedule_on_pools whole saves
        (cores_ram_filter ∷ [])
        (weigh ∷ [])
        (node ∷ node ∷ [])
        (pools, [])).0
schedule_on_pools-AllSound_example =
    schedule_on_pools-AllSound whole saves [] [] (weigh ∷ []) tt tt (node ∷ node ∷ []) (pools, [])
      (refl, (refl, tt))

-- Another node of the policy has its machine in a pool that is not listed.
abbrev allocations : List Allocation
allocations = record { policy = 1; node = node.node.uuid } ∷ record { policy = 1; node = 77 } ∷ []

abbrev peer_machine : Machine
peer_machine = record {
  uuid = 77;
  name = "peer";
  cores = 1;
  ram = 1;
  machine_type = vm;
  status = MachineStatus.scheduled;
  node = some 77;
  pool = some 999;
  project_id = 0;
}
