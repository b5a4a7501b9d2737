-- ===== src/Compute/Builders/Machines.antt =====
-- The machines of `PoolBuilderService` of exordos_core/compute/builders/pool.py, with `PoolMachine`
-- and `GuestMachine` of exordos_core/compute/pool/dm/models.py. The rows that the queries return are
-- arguments, and so is the port that `Port.from_boot_network` makes. A row that a hook deletes or
-- saves is told by its result.
pub mod Outdating
pub mod Model
pub mod Lifecycle
use genesis_core.Common.{
  ℕ, ◌==◌, ◌||◌, ◌&&◌, not, Bool, true, false, Option, none, some, List, [], ◌∷◌, if◌then◌else◌,
  ltb,
}
use genesis_core.Common.Dict
use genesis_core.Common.Dict.{Dict, nat_key}
use genesis_core.Common.Dict.Updates.{is_present}
use genesis_core.Common.Int.{ℤ, at_least, plus}
use genesis_core.Common.Outcome.{Outcome, ok, raised, ◌>>=◌}
use genesis_core.Common.Text.{Text, codes, text_beq}
use genesis_core.Compute.Model.{NodeType, NodeStatus, MachineStatus}
use genesis_core.Compute.Builders.Machines.Model.{
  Boot, hd, PortStatus, Port, Node, Pool, Machine, MachineVolume, PortInfo, PoolMachine,
  GuestMachine, BuilderError, from_machine_and_port, cdrom, network, new, in_progress, active,
  error, value_error, index_error,
}

-- `_agent_by_pool`, over the pools of the iteration.
unfoldable pub agent_by_pool : ℕ → List Pool → Outcome BuilderError (Option ℕ)
agent_by_pool uuid [] = raised value_error
agent_by_pool uuid (pool ∷ pools) =
    if pool.uuid == uuid then ok pool.agent else agent_by_pool uuid pools

abbrev pub starts_with : Text → Text → Bool
starts_with [] text = true
starts_with (_ ∷ _) [] = false
starts_with (c ∷ prefix) (d ∷ text) = c == d && starts_with prefix text

unfoldable pub is_core_machine : Machine → Bool
is_core_machine machine = starts_with (codes "core-set-node") machine.name

abbrev pub cores_of : Option Machine → ℕ
cores_of none = 0
cores_of (some machine) = machine.cores

abbrev pub ram_of : Option Machine → ℕ
ram_of none = 0
ram_of (some machine) = machine.ram

-- `avail >= target - actual`, as `avail + actual >= target`.
unfoldable pub has_enough_resources_in_pool : Pool → Machine → Option Machine → Bool
has_enough_resources_in_pool pool target actual =
    at_least (plus pool.avail_cores (cores_of actual)) target.cores
    && at_least (plus pool.avail_ram (ram_of actual)) target.ram

-- The volumes of `_fetch_machine_deps`, sorted by their index, equal ones in the order of the query.
unfoldable pub insert_volume : MachineVolume → List MachineVolume → List MachineVolume
insert_volume v [] = v ∷ []
insert_volume v (w ∷ ws) =
    let rest = insert_volume v ws in if ltb w.index v.index then w ∷ rest else v ∷ w ∷ ws

unfoldable pub sorted_volumes : List MachineVolume → List MachineVolume
unfolding insert_volume
sorted_volumes [] = []
sorted_volumes (v ∷ vs) = insert_volume v (sorted_volumes vs)

-- What `_can_create_machine` does: the machine is deleted to be scheduled again, it waits, or it is
-- created with the port and the volume that the context keeps.
pub data Creation : Type 0 where
  rescheduled : Creation
  waits : Creation
  creates : Port → MachineVolume → Creation

abbrev pub when_active : Port → MachineVolume → PortStatus → Creation
when_active port volume PortStatus.active = creates port volume
when_active port volume _ = waits

abbrev pub when_ready : List Port → List MachineVolume → Creation
when_ready (port ∷ ports) (volume ∷ volumes) = when_active port volume port.status
when_ready _ _ = waits

unfoldable pub can_create_machine : Machine → List Port → List MachineVolume → Creation
unfolding has_enough_resources_in_pool sorted_volumes
can_create_machine machine ports volumes =
    if has_enough_resources_in_pool machine.pool machine none
    then when_ready ports (sorted_volumes volumes)
    else rescheduled

abbrev pub failed_machine : Machine → Machine
failed_machine machine = record machine {
  status = MachineStatus.error;
  node = record machine.node { status = NodeStatus.error };
}

-- `_can_update_machine`, with the machine as it is then saved.
unfoldable pub can_update_machine : Machine → Machine → Bool × Machine
unfolding has_enough_resources_in_pool
can_update_machine machine actual =
    if has_enough_resources_in_pool machine.pool machine (some actual)
    then (true, machine)
    else (false, failed_machine machine)

-- `_get_or_fetch_machine_ctx`: what the iteration keeps, or the first port and the first volume.
unfoldable pub machine_context :
    Option (Port × MachineVolume)
    → List Port
    → List MachineVolume
    → Outcome BuilderError (Port × MachineVolume)
machine_context (some context) ports volumes = ok context
machine_context none (port ∷ ports) (volume ∷ volumes) = ok (port, volume)
machine_context none _ _ = raised index_error

-- The agent of the guest, kept or made, by its identifier.
abbrev pub ensure_agent : Machine → Dict ℕ ℕ → Dict ℕ ℕ
ensure_agent machine agents =
    if is_present (Dict.get machine.uuid agents)
    then agents
    else Dict.put machine.uuid machine.node.uuid agents

-- `machine.node.hostname or machine.node.name`
abbrev pub hostname_or : Option Text → Text → Text
hostname_or (some (c ∷ hostname)) name = c ∷ hostname
hostname_or _ name = name

abbrev pub hostname_of : Node → Text
hostname_of node = hostname_or node.hostname node.name

unfoldable pub same_image : Option Text → Option Text → Bool
same_image none none = true
same_image (some i) (some j) = text_beq i j
same_image _ _ = false

abbrev pub image_changed : Option GuestMachine → MachineVolume → Bool
image_changed none volume = false
image_changed (some guest) volume = not (same_image guest.image volume.image)

-- Whether the machine is to boot from the network: a new one outside of the core set, and one whose
-- guest has reported another image. A machine that is updated has a pair, the report if there is one.
unfoldable pub boots_from_network : Machine → MachineVolume → Option (Option GuestMachine) → Bool
unfolding is_core_machine same_image
boots_from_network machine volume none = not (is_core_machine machine)
boots_from_network machine volume (some actual) = image_changed actual volume

pub record Built : Type 0 where
  pub machine : Machine
  pub pool_machine : PoolMachine
  pub guest_machine : GuestMachine
  pub agents : Dict ℕ ℕ

abbrev pub built : Machine → Port → Dict ℕ ℕ → Option ℕ → Built
built machine port agents agent = record {
  machine = machine;
  pool_machine = from_machine_and_port machine port agent;
  guest_machine = record {
    uuid = machine.uuid;
    image = machine.image;
    agent_uuid = machine.uuid;
    hostname = hostname_of machine.node;
    boot = machine.boot;
    status = MachineStatus.new;
  };
  agents = ensure_agent machine agents;
}

-- `_actualize_machine_derivatives_on_create_update` with the port and the volume of the context.
unfoldable pub derivatives_on_create_update :
    List Pool
    → (boot_port : Port) → Dict ℕ ℕ
    → Machine
    → Port × MachineVolume
    → Option (Option GuestMachine)
    → Outcome BuilderError Built
unfolding boots_from_network agent_by_pool from_machine_and_port
derivatives_on_create_update pools boot_port agents machine (port, volume) actual =
    let network_boot = boots_from_network machine volume actual in
    let machine' = record machine {
      boot = if network_boot then network else hd 0;
      image = volume.image;
    } in
    agent_by_pool machine.pool.uuid pools >>= λ agent.
    ok (built machine' (if network_boot then boot_port else port) agents agent)

-- `_actualize_machine_status`
unfoldable pub machine_status : MachineStatus → MachineStatus → MachineStatus
machine_status MachineStatus.error _ = MachineStatus.error
machine_status _ MachineStatus.error = MachineStatus.error
machine_status MachineStatus.new _ = MachineStatus.new
machine_status _ MachineStatus.new = MachineStatus.new
machine_status MachineStatus.active MachineStatus.active = MachineStatus.active
machine_status _ _ = MachineStatus.in_progress

unfoldable pub actualize_machine_status :
    Machine → Option PoolMachine → Option GuestMachine → Machine
unfolding machine_status
actualize_machine_status machine (some pool) (some guest) = record machine {
  status = machine_status pool.status guest.status;
}
actualize_machine_status machine _ _ = machine
