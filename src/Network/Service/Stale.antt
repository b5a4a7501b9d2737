-- ===== src/Network/Service/Stale.antt =====
-- The handler of the allocation loop in exordos_core/network/service.py once a subnet is exhausted.
use genesis_core.Common.{ℕ, ◌≡◌, ◌∙◌, ap, false, none, some, List, [], ◌∷◌, arith}
use genesis_core.Common.Dict
use genesis_core.Common.Dict.{nat_key}
use genesis_core.Common.Outcome.{ok, raised}
use genesis_core.Network.Model.{Subnet, Port}
use genesis_core.Network.Ipam.{take_first, deallocate_in, allocate_ip, allocate_from, deallocate_ip}
use genesis_core.Network.Service.{
  Node, Draw, Insert, inserted, find_subnet, append_port, make_port, allocate_port, unbound_port,
  State, release, store_port, place_node,
}
use genesis_core.Network.Service.Addresses.{place_node-allocated}
use genesis_core.Network.Service.Rows.{apart}

module _ (insert : Port → Insert) (node : Node) (draw : Draw) (subnet : Subnet) (state : State)
    (found : find_subnet state.subnet_map ≡ some subnet)
    (exhausted : Dict.get subnet.uuid state.ipam.pool_map ≡ some []) where
  place_node-exhausted : place_node insert node draw state ≡ release state
  unfolding place_node allocate_port allocate_ip allocate_from
  place_node-exhausted = ground arith

  -- With no free address left for its first node, the loop itself raises.
  pub place_node_unbound :
      state.port ≡ none → place_node insert node draw state ≡ raised unbound_port
  unfolding release
  place_node_unbound h = place_node-exhausted ∙ ground arith

  module _ (q : Port) (a : ℕ) (last : state.port ≡ some q) (at : q.subnet ≡ subnet.uuid)
      (held : q.ipv4 ≡ some a) where
    -- Otherwise the handler frees the address of the node before.
    after_release : State
    after_release = record state {
      ipam = record { pool_map = Dict.put subnet.uuid ((a, a) ∷ []) state.ipam.pool_map };
    }

    release-stale : release state ≡ ok after_release
    unfolding release deallocate_ip deallocate_in after_release
    release-stale = ground (arith, exhausted, ap (λ (k : ℕ). Dict.get k state.ipam.pool_map) at)

    allocate_again :
        allocate_ip subnet.uuid none after_release.ipam
        ≡ ok (a, record { pool_map = Dict.put subnet.uuid [] after_release.ipam.pool_map })
    unfolding after_release allocate_ip allocate_from take_first
    allocate_again = ground (arith, Dict.get-put_self subnet.uuid ((a, a) ∷ []) state.ipam.pool_map)

    abbrev twin : Node → Draw → Port
    twin node' draw' = make_port node' draw' subnet a

    -- Once the subnet is exhausted, the node that finds it so frees the address of the node before
    -- it, and the next node without a target is given that address: two rows of the subnet hold it.
    pub place_node_repeats :
        (node' : Node) (draw' : Draw) (rest : List Port)
        → node'.target_ipv4 ≡ none
        → state.rows ≡ q ∷ rest
        → insert (make_port node' draw' subnet a) ≡ inserted
        → (one two : State) × (place_node insert node draw state ≡ ok one)
          × (place_node insert node' draw' one ≡ ok two)
          × (two.rows ≡ make_port node' draw' subnet a ∷ q ∷ rest)
          × (apart two.rows ≡ false)
    unfolding store_port after_release
    place_node_repeats node' draw' rest untargeted rows stored =
        let p : Port = make_port node' draw' subnet a in
        let two : State = record {
          ipam = record { pool_map = Dict.put subnet.uuid [] after_release.ipam.pool_map };
          subnet_map = append_port subnet.uuid p state.subnet_map;
          rows = p ∷ state.rows;
          port = some p;
        } in
        let again : allocate_ip subnet.uuid node'.target_ipv4 after_release.ipam
            ≡ ok (a, two.ipam) =
          rw untargeted allocate_again in
        let second =
          place_node-allocated insert node' draw' subnet after_release a two.ipam found again in
        (
          after_release,
          two,
          place_node-exhausted ∙ release-stale,
          second ∙ ground arith,
          ground arith,
          ground (arith, at, held),
        )
