-- ===== src/Network/Service/Hardware.antt =====
-- The loop over the HW ports in exordos_core/network/service.py.
use genesis_core.Common.{ℕ, ◌≡◌, refl, none, some, List, [], ◌∷◌}
use genesis_core.Common.Outcome.{Outcome, ok, raised}
use genesis_core.Network.Model.{Port}
use genesis_core.Network.Ipam.{Ipam, IpamError, allocate_ip}
use genesis_core.Network.Ipam.Allocation.{allocate_ip-Took, allocate_ip_least}
use genesis_core.Network.Service.{
  Insert, inserted, State, finish_hw_insert, store_hw_port, place_hw_port, place_hw_ports,
}
use genesis_core.Network.Service.Rows.{IsConsistent, IsConsistent-cons, IsConsistent-drop}

abbrev IsSound : State → Type 0
IsSound state = IsConsistent state.ipam state.rows

module _ (p : Port) (state : State) (inv : IsSound state) where
  finish_hw_insert-IsSound :
      (o : Insert) (a : ℕ) (after : Ipam)
      → allocate_ip p.subnet none state.ipam ≡ ok (a, after)
      → IsSound (finish_hw_insert o (record p { ipv4 = some a }) after state)
  unfolding finish_hw_insert
  finish_hw_insert-IsSound inserted a after h =
      IsConsistent-cons state.ipam after state.rows (record p { ipv4 = some a }) a inv
        (allocate_ip-Took p.subnet none state.ipam (inv.valid p.subnet) h) refl
        (allocate_ip_least p.subnet state.ipam (inv.valid p.subnet) h).0
  finish_hw_insert-IsSound _ a after h =
      IsConsistent-drop state.ipam after state.rows p.subnet a inv
        (allocate_ip-Took p.subnet none state.ipam (inv.valid p.subnet) h)

  store_hw_port-IsSound :
      (insert : Port → Insert) (r : Outcome IpamError (ℕ × Ipam))
      → allocate_ip p.subnet none state.ipam ≡ r
      → IsSound (store_hw_port insert p r state)
  unfolding store_hw_port
  store_hw_port-IsSound insert (raised e) h = inv
  store_hw_port-IsSound insert (ok (a, after)) h =
      finish_hw_insert-IsSound (insert (record p { ipv4 = some a })) a after h

-- The loop over the HW ports keeps the rows apart, whatever inserts fail and also where a subnet
-- runs out of addresses.
pub place_hw_ports-IsConsistent :
    (insert : Port → Insert) (ports : List Port) (state : State)
    → IsConsistent state.ipam state.rows
    → IsConsistent (place_hw_ports insert ports state).ipam (place_hw_ports insert ports state).rows
unfolding place_hw_ports place_hw_port
place_hw_ports-IsConsistent insert [] state inv = inv
place_hw_ports-IsConsistent insert (p ∷ ports) state inv =
    place_hw_ports-IsConsistent insert ports (place_hw_port insert p state)
      (store_hw_port-IsSound p state inv insert (allocate_ip p.subnet none state.ipam) refl)
