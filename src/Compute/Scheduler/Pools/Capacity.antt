-- ===== src/Compute/Scheduler/Pools/Capacity.antt =====
-- The scheduler of exordos_core/compute/scheduler/service.py never takes more cores or memory from
-- a pool than it has.
use genesis_core.Common.{
  ℕ, ◌&&◌, Bool, true, ◌≡◌, refl, ◌⊎◌, inl, inr, List, [], ◌∷◌, ◌++◌, arith, Member, Member-select,
  All,
}
use genesis_core.Common.Int.{ℤ, pos, negsuc, minus, at_least}
use genesis_core.Common.Outcome.{Outcome, ok, raised}
use genesis_core.Compute.Model.{Volume, MachineVolume, NodeBundle, MachinePoolBundle}
use genesis_core.Compute.Scheduler.Volumes.{ScheduleError, place_volume_into_pool}
use genesis_core.Compute.Scheduler.Volumes.Placement.{
  Built, Reused, place_volume_into_pool-Outcomes,
}
use genesis_core.Compute.Scheduler.Weights.{Floats, Choice, nothing, broken, chosen, choose}
use genesis_core.Compute.Scheduler.Weights.Best.{choose-Member}
use genesis_core.Compute.Scheduler.Pools.{
  has_room, cores_ram_filter, Row, place_volumes, finish_node, place_node_into_pool, take_room,
  update_pool, Filter, apply_filters, World, after_choice, schedule_nodes, schedule_on_pools,
}

-- Neither the cores nor the memory that the pool has left are negative.
abbrev pub is_sound : MachinePoolBundle → Bool
is_sound p = at_least p.pool.avail_cores 0 && at_least p.pool.avail_ram 0

minus_sound : (i : ℤ) (n : ℕ) → at_least i n ≡ true → at_least (minus i n) 0 ≡ true
minus_sound (pos a) n h = ground arith
minus_sound (negsuc a) n h = cc

take_room_sound :
    (node : NodeBundle) (p : MachinePoolBundle)
    → has_room node p ≡ true
    → is_sound (take_room node.node p) ≡ true
take_room_sound node p h = ground (
  arith,
  minus_sound p.pool.avail_cores node.node.cores,
  minus_sound p.pool.avail_ram node.node.ram,
)

-- What the placement of volumes leaves alone.
abbrev Keeps : MachinePoolBundle → MachinePoolBundle → Type 0
Keeps p q =
    (q.pool.avail_cores ≡ p.pool.avail_cores)
    × (q.pool.avail_ram ≡ p.pool.avail_ram)
    × (q.pool.uuid ≡ p.pool.uuid)

place_volume-Keeps :
    (volume : Volume) (p : MachinePoolBundle) (r : MachineVolume × MachinePoolBundle)
    → place_volume_into_pool volume p ≡ ok r
    → Keeps p r.1
place_volume-Keeps volume p r h = go (place_volume_into_pool-Outcomes volume p h)
  where
    go : Built volume p r.0 r.1 ⊎ ((u : MachineVolume) × Reused volume p r.0 r.1 u) → Keeps p r.1
    go (inl built) = ground (arith, built.others)
    go (inr (u, reused)) = ground (arith, reused.others)

place_volumes-Keeps :
    (volumes : List Volume) (p : MachinePoolBundle) → Keeps p (place_volumes volumes p).1
unfolding place_volumes
place_volumes-Keeps [] p = (refl, refl, refl)
place_volumes-Keeps (volume ∷ volumes) p =
    go (place_volume_into_pool volume p) refl (place_volumes-Keeps volumes)
  where
    go :
        (r : Outcome ScheduleError (MachineVolume × MachinePoolBundle))
        → place_volume_into_pool volume p ≡ r
        → ((q : MachinePoolBundle) → Keeps q (place_volumes volumes q).1)
        → Keeps p (place_volumes (volume ∷ volumes) p).1
    go (raised e) h ih = ground (arith, h)
    go (ok placed) h ih =
        let one = place_volume-Keeps volume p placed h in
        let more = ih placed.1 in ground (arith, h, one.0, one.1, one.2, more.0, more.1, more.2)

finish_node-is_sound :
    (saves : Row → Bool) (node : NodeBundle) (volumes : List MachineVolume) (p : MachinePoolBundle)
    (log : List Row)
    → has_room node p ≡ true
    → is_sound p ≡ true
    → is_sound (finish_node saves node.node volumes p log).pool ≡ true
unfolding finish_node
finish_node-is_sound saves node volumes p log room sound =
    ground (arith, take_room_sound node p room)

place_node-is_sound :
    (saves : Row → Bool) (node : NodeBundle) (p : MachinePoolBundle) (log : List Row)
    → has_room node p ≡ true
    → is_sound p ≡ true
    → is_sound (place_node_into_pool saves node p log).pool ≡ true
unfolding place_node_into_pool
place_node-is_sound saves node p log room sound =
    go (place_volumes node.volumes p).0 refl (place_volumes-Keeps node.volumes p)
  where
    go :
        (r : Outcome ScheduleError (List MachineVolume))
        → (place_volumes node.volumes p).0 ≡ r
        → Keeps p (place_volumes node.volumes p).1
        → is_sound (place_node_into_pool saves node p log).pool ≡ true
    go (raised e) h (c, m, u) = ground (arith, h, c, m)
    go (ok volumes) h (c, m, u) =
        let after : MachinePoolBundle = (place_volumes node.volumes p).1 in
        let room' : has_room node after ≡ true = ground (arith, c, m) in
        let sound' : is_sound after ≡ true = ground (arith, c, m) in
        ground (arith, h, finish_node-is_sound saves node volumes after log room' sound')

-- A filter returns some of the pools that it is given.
abbrev pub IsFilter : Filter → Type 0
IsFilter f =
    (node : NodeBundle) (pools : List MachinePoolBundle) (p : MachinePoolBundle)
    → Member p (f node pools)
    → Member p pools

apply_filters-Member :
    (filters : List Filter) (node : NodeBundle) (pools : List MachinePoolBundle)
    (p : MachinePoolBundle)
    → All IsFilter filters
    → Member p (apply_filters filters node pools)
    → Member p pools
unfolding apply_filters
apply_filters-Member [] node pools p each m = m
apply_filters-Member (f ∷ fs) node pools p each m =
    each.0 node pools p (apply_filters-Member fs node (f node pools) p each.1 m)

apply_filters-has_room :
    (first rest : List Filter) (node : NodeBundle) (pools : List MachinePoolBundle)
    (p : MachinePoolBundle)
    → All IsFilter first
    → All IsFilter rest
    → Member p (apply_filters (first ++ cores_ram_filter ∷ rest) node pools)
    → Member p pools × (has_room node p ≡ true)
unfolding apply_filters cores_ram_filter
apply_filters-has_room [] rest node pools p each each' m =
    Member-select (has_room node) p pools
      (apply_filters-Member rest node (cores_ram_filter node pools) p each' m)
apply_filters-has_room (f ∷ first) rest node pools p each each' m =
    let (old, room) = apply_filters-has_room first rest node (f node pools) p each.1 each' m in
    (each.0 node pools p old, room)

is_sound_of_mem :
    (p : MachinePoolBundle) (pools : List MachinePoolBundle)
    → All (λ q. is_sound q ≡ true) pools
    → Member p pools
    → is_sound p ≡ true
is_sound_of_mem p (q ∷ pools) each (inl e) = rw (← e) each.0
is_sound_of_mem p (q ∷ pools) each (inr m) = is_sound_of_mem p pools each.1 m
is_sound_of_mem p [] each m = absurd m

update_pool_sound :
    (after : MachinePoolBundle) (pools : List MachinePoolBundle)
    → is_sound after ≡ true
    → All (λ q. is_sound q ≡ true) pools
    → All (λ q. is_sound q ≡ true) (update_pool after pools)
unfolding update_pool
update_pool_sound after [] sound each = tt
update_pool_sound after (q ∷ pools) sound each =
    (ground (arith, sound, each.0), update_pool_sound after pools sound each.1)

abbrev pub AllSound : List MachinePoolBundle → Type 0
AllSound = All (λ q. is_sound q ≡ true)

after_choice-AllSound :
    (saves : Row → Bool) (node : NodeBundle) (c : Choice MachinePoolBundle) (later : World → World)
    (world : World)
    → ((p : MachinePoolBundle) → c ≡ chosen p → Member p world.0 × (has_room node p ≡ true))
    → ((w : World) → AllSound w.0 → AllSound (later w).0)
    → AllSound world.0
    → AllSound (after_choice saves node c later world).0
unfolding after_choice
after_choice-AllSound saves node nothing later world from keep sound = keep world sound
after_choice-AllSound saves node broken later world from keep sound = sound
after_choice-AllSound saves node (chosen p) later (pools, log) from keep sound =
    let (member, room) = from p refl in
    let run = place_node_into_pool saves node p log in
    keep (update_pool run.pool pools, run.log)
      (update_pool_sound run.pool pools
        (place_node-is_sound saves node p log room (is_sound_of_mem p pools sound member)) sound)

module _ (floats : Floats) (saves : Row → Bool) (first rest : List Filter)
    (weighers : List (List MachinePoolBundle → List (Floats.F floats))) (each : All IsFilter first)
    (each' : All IsFilter rest) where
  abbrev filters : List Filter
  filters = first ++ cores_ram_filter ∷ rest

  schedule_nodes-AllSound :
      (nodes : List NodeBundle) (world : World)
      → AllSound world.0
      → AllSound (schedule_nodes floats saves filters weighers nodes world).0
  unfolding schedule_nodes
  schedule_nodes-AllSound [] world sound = sound
  schedule_nodes-AllSound (node ∷ nodes) world sound =
      let suitable : List MachinePoolBundle = apply_filters filters node world.0 in
      after_choice-AllSound saves node (choose floats weighers suitable)
        (schedule_nodes floats saves filters weighers nodes) world
        (λ p c.
          apply_filters-has_room first rest node world.0 p each each'
            (choose-Member floats weighers suitable c))
        (schedule_nodes-AllSound nodes) sound

  -- With `CoresRamAvailableFilter` among the filters, the others of which return some of the pools
  -- that they are given, no pool's cores or memory ever go below zero, whichever saves fail and
  -- whatever the weighers return.
  pub schedule_on_pools-AllSound :
      (nodes : List NodeBundle) (world : World)
      → All (λ q. is_sound q ≡ true) world.0
      → All
          (λ q. is_sound q ≡ true)
          (schedule_on_pools floats saves (first ++ cores_ram_filter ∷ rest) weighers nodes world).0
  unfolding schedule_on_pools
  schedule_on_pools-AllSound nodes ([], log) sound = tt
  schedule_on_pools-AllSound nodes (p ∷ pools, log) sound =
      schedule_nodes-AllSound nodes (p ∷ pools, log) sound
