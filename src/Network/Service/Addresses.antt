-- ===== src/Network/Service/Addresses.antt =====
-- The loops of exordos_core/network/service.py keep the addresses of each subnet apart.
use genesis_core.Common.{
  ℕ, suc, ◌≤◌, ◌≡◌, refl, ◌∙◌, ap, true, none, some, List, [], ◌∷◌, arith, length, All,
}
use genesis_core.Common.Outcome.{ok}
use genesis_core.Network.Model.{Subnet, Port}
use genesis_core.Network.Ipam.{Pool, Ipam, allocate_ip}
use genesis_core.Network.Ipam.Pools.{contains, IsValid, size, size-occupy_ip, contains_of_size}
use genesis_core.Network.Ipam.Allocation.{
  pool_of, Took, allocate_ip-Took, allocate_ip_least, allocate_ip_total, deallocate_ip-allocate_ip,
}
use genesis_core.Network.Service.{
  Node, Draw, Insert, inserted, value_error, failed, find_subnet, append_port, make_port,
  allocate_port, State, release_address, finish_insert, store_port, place_node, place_nodes,
}
use genesis_core.Network.Service.Rows.{
  taken, IsConsistent, IsConsistent-cons, IsConsistent-drop, IsConsistent-same,
  find_subnet-append_port,
}

-- The state is consistent, its nodes go to `subnet`, and `n` more addresses are free there.
pub record IsReady (subnet : Subnet) (n : ℕ) (state : State) : Type 0 where
  pub consistent : IsConsistent state.ipam state.rows
  pub found : find_subnet state.subnet_map ≡ some subnet
  pub room : n ≤ size (pool_of state.ipam subnet.uuid)

-- What an allocation at the subnet of `p` does to a state that is ready.
module _ (subnet : Subnet) (n : ℕ) (p : Port) (a : ℕ) (after : Ipam) (state : State)
    (ready : IsReady subnet (suc n) state) (at : p.subnet ≡ subnet.uuid) (e : p.ipv4 ≡ some a)
    (h : allocate_ip p.subnet none state.ipam ≡ ok (a, after)) where
  abbrev pool : Pool
  pool = pool_of state.ipam p.subnet

  is_valid : IsValid pool
  is_valid = ready.consistent.valid p.subnet

  took : Took p.subnet a state.ipam after
  took = allocate_ip-Took p.subnet none state.ipam is_valid h

  was_free : contains a pool ≡ true
  was_free = (allocate_ip_least p.subnet state.ipam is_valid h).0

  room_after : n ≤ size (pool_of after subnet.uuid)
  room_after =
      let less = size-occupy_ip a 0 pool is_valid was_free in
      let now = ap (λ (q : Pool). size q) took.occupied in
      rw (← at) (omega (arith, less, now, ap (λ (k : ℕ). size (pool_of state.ipam k)) at))

  abbrev bound : State
  bound = record {
    ipam = after;
    subnet_map = append_port p.subnet p state.subnet_map;
    rows = state.rows;
    port = some p;
  }

  found_after : find_subnet bound.subnet_map ≡ some subnet
  found_after = find_subnet-append_port p.subnet p state.subnet_map ∙ ready.found

  finish_insert-IsReady :
      (o : Insert)
      → (state' : State) × (finish_insert o p bound ≡ ok state') × IsReady subnet n state'
  unfolding finish_insert release_address
  finish_insert-IsReady inserted = (
    _,
    refl,
    record {
      consistent =
          IsConsistent-cons state.ipam after state.rows p a ready.consistent took e was_free;
      found = found_after;
      room = room_after;
    },
  )
  finish_insert-IsReady value_error = (
    _,
    refl,
    record {
      consistent = IsConsistent-drop state.ipam after state.rows p.subnet a ready.consistent took;
      found = found_after;
      room = room_after;
    },
  )
  finish_insert-IsReady failed =
      let (final, gave, same) =
        deallocate_ip-allocate_ip p.subnet none state.ipam is_valid refl h in
      (
        record bound { ipam = final },
        ground (arith, gave, e),
        record {
          consistent = IsConsistent-same state.ipam final state.rows same ready.consistent;
          found = found_after;
          room = rw (same subnet.uuid) (omega (arith, ready.room));
        },
      )

pub place_node-allocated :
    (insert : Port → Insert) (node : Node) (draw : Draw) (subnet : Subnet) (state : State) (a : ℕ)
    (after : Ipam)
    → find_subnet state.subnet_map ≡ some subnet
    → allocate_ip subnet.uuid node.target_ipv4 state.ipam ≡ ok (a, after)
    → place_node insert node draw state
      ≡ store_port insert (make_port node draw subnet a) after state
unfolding place_node allocate_port
place_node-allocated insert node draw subnet state a after found done = ground arith

place_node-IsReady :
    (insert : Port → Insert) (node : Node) (draw : Draw) (subnet : Subnet) (n : ℕ) (state : State)
    → IsReady subnet (suc n) state
    → node.target_ipv4 ≡ none
    → (state' : State) × (place_node insert node draw state ≡ ok state') × IsReady subnet n state'
place_node-IsReady insert node draw subnet n state ready untargeted =
    let (b, free) =
      contains_of_size 0 (pool_of state.ipam subnet.uuid) (ready.consistent.valid subnet.uuid)
        (omega (arith, ready.room)) in
    let (taken, done) = allocate_ip_total subnet.uuid none state.ipam b free in
    go taken.0 taken.1 done
  where
    go :
        (a : ℕ) (after : Ipam)
        → allocate_ip subnet.uuid none state.ipam ≡ ok (a, after)
        → (state' : State) × (place_node insert node draw state ≡ ok state')
          × IsReady subnet n state'
    go a after done =
        let p : Port = make_port node draw subnet a in
        let (state', stored, ready') =
          finish_insert-IsReady subnet n p a after state ready refl refl done (insert p) in
        let done' : allocate_ip subnet.uuid node.target_ipv4 state.ipam ≡ ok (a, after) =
          rw untargeted done in
        (
          state',
          place_node-allocated insert node draw subnet state a after ready.found done'
              ∙ unfold store_port in stored,
          ready',
        )

abbrev Untargeted : List (Node × Draw) → Type 0
Untargeted = All (λ entry. entry.0.target_ipv4 ≡ none)

-- When every pool is valid (its free ranges stand in order with gaps between them), no row's address
-- is free in the pool of its subnet, no two rows of one subnet hold one address, the subnet of the VM
-- nodes is known and has as many free addresses as there are nodes, and none of the nodes asks for an
-- address of its own, the loop over the nodes ends without a crash and leaves every pool valid, no
-- row's address free and no two rows of one subnet with one address, whichever inserts fail.
pub place_nodes-IsConsistent :
    (insert : Port → Insert) (nodes : List (Node × Draw)) (subnet : Subnet) (state : State)
    → IsConsistent state.ipam state.rows
    → find_subnet state.subnet_map ≡ some subnet
    → length nodes ≤ size (pool_of state.ipam subnet.uuid)
    → Untargeted nodes
    → (state' : State) × (place_nodes insert nodes state ≡ ok state')
      × IsConsistent state'.ipam state'.rows
unfolding place_nodes
place_nodes-IsConsistent insert [] subnet state inv found room free = (state, refl, inv)
place_nodes-IsConsistent insert ((node, draw) ∷ nodes) subnet state inv found room free =
    let (next, placed, ready) =
      place_node-IsReady insert node draw subnet (length nodes) state
        (record { consistent = inv; found = found; room = room }) free.0 in
    let (state', rest, inv') =
      place_nodes-IsConsistent insert nodes subnet next ready.consistent ready.found ready.room
        free.1 in
    (state', rw placed rest, inv')
