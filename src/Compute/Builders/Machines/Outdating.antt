-- ===== src/Compute/Builders/Machines/Outdating.antt =====
-- What `PoolBuilderService` of exordos_core/compute/builders/pool.py does of a machine whose derivatives
-- are outdated.
use genesis_core.Common.{◌&&◌, Bool, true, false, Option, none, some, List, [], ◌∷◌, if◌then◌else◌}
use genesis_core.Common.Dict.{nat_key}
use genesis_core.Common.Outcome.{Outcome, ok, raised, ◌>>=◌}
use genesis_core.Compute.Model.{MachineStatus}
use genesis_core.Compute.Builders.Machines.Model.{
  Boot, hd, Port, Pool, Machine, MachineVolume, PoolMachine, GuestMachine, BuilderError,
  from_machine_and_port, network, value_error,
}
use genesis_core.Compute.Builders.Machines.{agent_by_pool, actualize_machine_status}

pub data Pair : Type 0 where
  guest_pair : GuestMachine → Option GuestMachine → Pair
  pool_pair : PoolMachine → Option PoolMachine → Pair

abbrev later : {A : Type 0} → Option A → A → A
later none a = a
later (some b) a = b

-- The loop over the pairs: of each kind the last.
abbrev pub guest_of : List Pair → Option (GuestMachine × Option GuestMachine)
guest_of [] = none
guest_of (guest_pair target actual ∷ pairs) = some (later (guest_of pairs) (target, actual))
guest_of (pool_pair target actual ∷ pairs) = guest_of pairs

abbrev pub pool_of : List Pair → Option (PoolMachine × Option PoolMachine)
pool_of [] = none
pool_of (guest_pair target actual ∷ pairs) = pool_of pairs
pool_of (pool_pair target actual ∷ pairs) = some (later (pool_of pairs) (target, actual))

abbrev pub is_network : Boot → Bool
is_network network = true
is_network _ = false

abbrev pub status_is_flashed : MachineStatus → Bool
status_is_flashed MachineStatus.flashed = true
status_is_flashed _ = false

abbrev pub is_flashed : Option GuestMachine → Bool
is_flashed none = false
is_flashed (some guest) = is_network guest.boot && status_is_flashed guest.status

pub record Outdated : Type 0 where
  pub machine : Machine
  pub pool_machine : PoolMachine
  pub guest_machine : GuestMachine

-- A flashed machine boots from its disk, in the main network.
unfoldable pub switch_to_disk :
    List Pool
    → Outcome BuilderError (Port × MachineVolume)
    → Outdated
    → Outcome BuilderError Outdated
unfolding agent_by_pool from_machine_and_port
switch_to_disk pools context o = do
  (port, volume) ← context
  agent ← agent_by_pool o.machine.pool.uuid pools
  let machine = record o.machine { boot = hd 0 }
  ok (record {
    machine = machine;
    pool_machine = from_machine_and_port machine port agent;
    guest_machine = record o.guest_machine { boot = hd 0 };
  })

abbrev pub outdated_pairs :
    List Pool
    → Outcome BuilderError (Port × MachineVolume)
    → Machine
    → Option (PoolMachine × Option PoolMachine)
    → Option (GuestMachine × Option GuestMachine)
    → Outcome BuilderError Outdated
outdated_pairs pools context machine (some (pool, pool_actual)) (some (guest, guest_actual)) =
    let now : Outdated = record { machine = machine; pool_machine = pool; guest_machine = guest } in
    (if is_flashed guest_actual then switch_to_disk pools context now else ok now) >>= λ o.
    ok (record o { machine = actualize_machine_status o.machine pool_actual guest_actual })
outdated_pairs pools context machine _ _ = raised value_error

-- `_actualize_machine_derivatives_on_outdate`; the context is read only for a flashed machine.
unfoldable pub derivatives_on_outdate :
    List Pool
    → Outcome BuilderError (Port × MachineVolume)
    → Machine
    → List Pair
    → Outcome BuilderError Outdated
unfolding switch_to_disk actualize_machine_status
derivatives_on_outdate pools context machine pairs =
    outdated_pairs pools context machine (pool_of pairs) (guest_of pairs)
