-- ===== src/Compute/Scheduler/Pools.antt =====
-- `_place_node_into_pool` and `_schedule_on_pools` of exordos_core/compute/scheduler/service.py,
-- and the filter of exordos_core/compute/scheduler/driver/filters/available.py.
-- The rows that the session saves are a log, the latest first; `saves` says which saves succeed.
pub mod Capacity
use genesis_core.Common.{
  ℕ, ◌==◌, ◌&&◌, Bool, true, false, Option, none, some, List, [], ◌∷◌, select, if◌then◌else◌,
}
use genesis_core.Common.Int.{ℤ, minus, at_least}
use genesis_core.Common.Outcome.{Outcome, ok, raised}
use genesis_core.Compute.Model.{
  NodeType, vm, MachineStatus, Volume, MachineVolume, MachinePool, Node, Machine, NodeBundle,
  MachinePoolBundle,
}
use genesis_core.Compute.Scheduler.Volumes.{ScheduleError, save_failed, place_volume_into_pool}
use genesis_core.Compute.Scheduler.Weights.{Floats, Choice, nothing, broken, chosen, choose}

-- `CoresRamAvailableFilter.filter`
abbrev pub has_room : NodeBundle → MachinePoolBundle → Bool
has_room node p =
    at_least p.pool.avail_cores node.node.cores && at_least p.pool.avail_ram node.node.ram

unfoldable pub cores_ram_filter : NodeBundle → List MachinePoolBundle → List MachinePoolBundle
cores_ram_filter node pools = select (has_room node) pools

pub data Row : Type 0 where
  node_row : Node → Row
  machine_row : Machine → Row
  volume_row : MachineVolume → Row

abbrev pub scheduled_machine : Node → ℕ → Machine
scheduled_machine node pool = record {
  uuid = node.uuid;
  name = node.name;
  cores = node.cores;
  ram = node.ram;
  machine_type = vm;
  status = MachineStatus.scheduled;
  node = some node.uuid;
  pool = some pool;
  project_id = node.project_id;
}

-- A call that may raise, with what it has done by then: the pool and the log.
pub record Run (A : Type 0) : Type 0 where
  pub result : Outcome ScheduleError A
  pub pool : MachinePoolBundle
  pub log : List Row

-- The loop that fills `volume_allocations`.
unfoldable pub place_volumes :
    List Volume → MachinePoolBundle → Outcome ScheduleError (List MachineVolume) × MachinePoolBundle
place_volumes [] bundle = (ok [], bundle)
place_volumes (volume ∷ volumes) bundle = elim (place_volume_into_pool volume bundle) [
  | raised e ↦ (raised e, bundle)
  | ok placed ↦
      let (rest, after) = place_volumes volumes placed.1 in
      (elim rest [ raised e ↦ raised e | ok more ↦ ok (placed.0 ∷ more) ], after)
]

-- `save()` of each row in turn; the first failure ends the loop.
unfoldable pub save_rows : (Row → Bool) → List Row → List Row → Bool × List Row
save_rows saves [] log = (true, log)
save_rows saves (row ∷ rows) log =
    let rest = save_rows saves rows (row ∷ log) in if saves row then rest else (false, log)

abbrev pub rows_of : Node → ℕ → List MachineVolume → List Row
rows_of node pool volumes =
    node_row (record node { pool = some pool })
    ∷ machine_row (scheduled_machine node pool)
    ∷ attach volumes
  where
    attach : List MachineVolume → List Row
    attach [] = []
    attach (v ∷ vs) =
        volume_row (record v { pool = some pool; machine = some node.uuid }) ∷ attach vs

abbrev pub take_room : Node → MachinePoolBundle → MachinePoolBundle
take_room node bundle = record bundle {
  pool = record bundle.pool {
    avail_cores = minus bundle.pool.avail_cores node.cores;
    avail_ram = minus bundle.pool.avail_ram node.ram;
  };
}

unfoldable pub finish_node :
    (Row → Bool) → Node → List MachineVolume → MachinePoolBundle → List Row → Run Unit
unfolding save_rows
finish_node saves node volumes bundle log =
    let (saved, log') = save_rows saves (rows_of node bundle.pool.uuid volumes) log in
    if saved
    then record { result = ok tt; pool = take_room node bundle; log = log' }
    else record { result = raised save_failed; pool = bundle; log = log' }

unfoldable pub place_node_into_pool :
    (Row → Bool) → NodeBundle → MachinePoolBundle → List Row → Run Unit
unfolding place_volumes finish_node
place_node_into_pool saves node bundle log =
    let (placed, after) = place_volumes node.volumes bundle in
    elim placed [
      | raised e ↦ record { result = raised e; pool = after; log = log }
      | ok volumes ↦ finish_node saves node.node volumes after log
    ]

-- The chosen bundle is one of the objects of `origin_pools`: what is done to it shows there.
unfoldable pub update_pool : MachinePoolBundle → List MachinePoolBundle → List MachinePoolBundle
update_pool after [] = []
update_pool after (p ∷ ps) =
    (if p.pool.uuid == after.pool.uuid then after else p) ∷ update_pool after ps

abbrev pub Filter : Type 0
Filter = NodeBundle → List MachinePoolBundle → List MachinePoolBundle

unfoldable pub apply_filters :
    List Filter → NodeBundle → List MachinePoolBundle → List MachinePoolBundle
apply_filters [] node pools = pools
apply_filters (filter ∷ filters) node pools = apply_filters filters node (filter node pools)

-- The pools of `origin_pools` as they are now, and the log.
abbrev pub World : Type 0
World = List MachinePoolBundle × List Row

unfoldable pub place_chosen : (Row → Bool) → NodeBundle → MachinePoolBundle → World → World
unfolding update_pool
place_chosen saves node pool (pools, log) =
    let run = place_node_into_pool saves node pool log in (update_pool run.pool pools, run.log)

-- A node without a pool is passed over; an exception of the choice ends the loop.
unfoldable pub after_choice :
    (Row → Bool) → NodeBundle → Choice MachinePoolBundle → (World → World) → World → World
unfolding place_chosen
after_choice saves node nothing later world = later world
after_choice saves node broken later world = world
after_choice saves node (chosen pool) later world = later (place_chosen saves node pool world)

module _ (floats : Floats) (saves : Row → Bool) (filters : List Filter)
    (weighers : List (List MachinePoolBundle → List (Floats.F floats))) where
  -- The filters, the choice by weights, and the placement of each node in turn.
  unfoldable pub schedule_nodes : List NodeBundle → World → World
  unfolding after_choice apply_filters
  schedule_nodes [] world = world
  schedule_nodes (node ∷ nodes) world =
      after_choice saves node (choose floats weighers (apply_filters filters node world.0))
        (schedule_nodes nodes) world

  unfoldable pub schedule_on_pools : List NodeBundle → World → World
  unfolding schedule_nodes
  schedule_on_pools nodes ([], log) = ([], log)
  schedule_on_pools nodes (pool ∷ pools, log) = schedule_nodes nodes (pool ∷ pools, log)
