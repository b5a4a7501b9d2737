-- ===== src/Compute/Builders/Machines/Lifecycle.antt =====
-- The boot of a machine through the hooks of `PoolBuilderService`.
use genesis_core.Common.{
  ℕ, ◌≡◌, ◌&&◌, ◌||◌, refl, Bool, true, false, Option, none, some, List, [], ◌∷◌, arith, inl, inr,
  Bool-cases, if◌then◌else◌,
}
use genesis_core.Common.Dict.{Dict}
use genesis_core.Common.Outcome.{Outcome, ok, ok_chain, Outcome-cases}
use genesis_core.Common.Text.{Text}
use genesis_core.Compute.Model.{MachineStatus}
use genesis_core.Compute.Builders.Machines.{
  Built, boots_from_network, built, derivatives_on_create_update, agent_by_pool,
  actualize_machine_status, machine_status,
}
use genesis_core.Compute.Builders.Machines.Outdating.{
  Outdated, derivatives_on_outdate, is_flashed, is_network, guest_pair, pool_pair, switch_to_disk,
}
use genesis_core.Compute.Builders.Machines.Model.{
  Boot, hd, network, Port, PortInfo, Pool, Machine, MachineVolume, PoolMachine, GuestMachine,
  BuilderError, from_machine_and_port,
}

abbrev pub info_of : Port → PortInfo
info_of port = record { ipv4 = port.ipv4; mask = port.mask; mac = port.mac; source = port.source }

abbrev boot_of : Bool → Boot
boot_of b = if b then network else hd 0

-- What the hook makes of a machine that it may create or update.
create_update_Built :
    (pools : List Pool) (boot_port port : Port) (agents : Dict ℕ ℕ) (machine : Machine)
    (volume : MachineVolume) (actual : Option (Option GuestMachine)) (b : Built)
    → derivatives_on_create_update pools boot_port agents machine (port, volume) actual ≡ ok b
    → (agent : Option ℕ) × (b
        ≡ built
            (record machine {
              boot = boot_of (boots_from_network machine volume actual);
              image = volume.image;
            })
            (if boots_from_network machine volume actual then boot_port else port)
            agents
            agent)
unfolding derivatives_on_create_update
create_update_Built pools boot_port port agents machine volume actual b h =
    let (agent, found, same) = ok_chain (agent_by_pool machine.pool.uuid pools) _ {b = b} h in
    (agent, ground arith)

-- The machine, what is wanted of the pool's agent and of the guest's, and what the guest reported.
pub record Stage : Type 0 where
  pub machine : Machine
  pub pool_machine : PoolMachine
  pub guest_machine : GuestMachine
  pub reported : Option GuestMachine

abbrev after_status : Outdated → Option PoolMachine → Option GuestMachine → Outdated
after_status o pool guest = record o { machine = actualize_machine_status o.machine pool guest }

abbrev on_disk : Machine → GuestMachine → Port → Option ℕ → Outdated
on_disk machine guest port agent = record {
  machine = record machine { boot = hd 0 };
  pool_machine = from_machine_and_port (record machine { boot = hd 0 }) port agent;
  guest_machine = record guest { boot = hd 0 };
}

abbrev unchanged : Machine → PoolMachine → GuestMachine → Outdated
unchanged machine pool guest = record {
  machine = machine;
  pool_machine = pool;
  guest_machine = guest;
}

outdate_flashed :
    (pools : List Pool) (port : Port) (volume : MachineVolume) (machine : Machine)
    (pool : PoolMachine) (guest : GuestMachine) (pool_actual : Option PoolMachine)
    (actual : Option GuestMachine) (o : Outdated)
    → is_flashed actual ≡ true
    → derivatives_on_outdate pools
        (ok (port, volume))
        machine
        (pool_pair pool pool_actual ∷ guest_pair guest actual ∷ [])
      ≡ ok o
    → (agent : Option ℕ) × (o ≡ after_status (on_disk machine guest port agent) pool_actual actual)
unfolding derivatives_on_outdate switch_to_disk
outdate_flashed pools port volume machine pool guest pool_actual actual o flashed h =
    elim (Outcome-cases (agent_by_pool machine.pool.uuid pools)) [
      | inl (failure, failed) ↦ ground arith
      | inr (agent, found) ↦ (agent, ground arith)
    ]

outdate_waits :
    (pools : List Pool) (context : Outcome BuilderError (Port × MachineVolume)) (machine : Machine)
    (pool : PoolMachine) (guest : GuestMachine) (pool_actual : Option PoolMachine)
    (actual : Option GuestMachine) (o : Outdated)
    → is_flashed actual ≡ false
    → derivatives_on_outdate pools context machine
        (pool_pair pool pool_actual ∷ guest_pair guest actual ∷ [])
      ≡ ok o
    → o ≡ after_status (unchanged machine pool guest) pool_actual actual
unfolding derivatives_on_outdate
outdate_waits pools context machine pool guest pool_actual actual o flashed h = ground arith

status_only :
    (machine : Machine) (pool : Option PoolMachine) (guest : Option GuestMachine)
    → ((actualize_machine_status machine pool guest).boot ≡ machine.boot)
      × ((actualize_machine_status machine pool guest).image ≡ machine.image)
unfolding actualize_machine_status
status_only machine none guest = (refl, refl)
status_only machine (some pool) none = (refl, refl)
status_only machine (some pool) (some guest) = (refl, refl)

abbrev pub is_active : MachineStatus → Bool
is_active MachineStatus.active = true
is_active _ = false

abbrev pub is_error : MachineStatus → Bool
is_error MachineStatus.error = true
is_error _ = false

machine_status_lem :
    (p g : MachineStatus)
    → (is_active (machine_status p g) ≡ (is_active p && is_active g))
      × (is_error (machine_status p g) ≡ (is_error p || is_error g))
unfolding machine_status
machine_status_lem p g = ground arith

-- When both agents have reported and the hook for an outdated machine returns, the machine boots from
-- its disk if the guest was flashed in the network and from where it did otherwise; it is active
-- exactly when both reports are, and failed exactly when one of them is.
pub derivatives_on_outdate_lem :
    (pools : List Pool) (port : Port) (volume : MachineVolume) (machine : Machine)
    (pool p : PoolMachine) (guest g : GuestMachine) (o : Outdated)
    → derivatives_on_outdate pools
        (ok (port, volume))
        machine
        (pool_pair pool (some p) ∷ guest_pair guest (some g) ∷ [])
      ≡ ok o
    → (o.machine.boot ≡ (if is_flashed (some g) then hd 0 else machine.boot))
      × (is_active o.machine.status ≡ (is_active p.status && is_active g.status))
      × (is_error o.machine.status ≡ (is_error p.status || is_error g.status))
unfolding actualize_machine_status
derivatives_on_outdate_lem pools port volume machine pool p guest g o h =
    let status = machine_status_lem p.status g.status in
    elim (Bool-cases (is_flashed (some g))) [
      | inl flashed ↦
          let (agent, same) =
            outdate_flashed pools port volume machine pool guest (some p) (some g) o flashed h in
          ground arith
      | inr waits ↦
          let same =
            outdate_waits pools (ok (port, volume)) machine pool guest (some p) (some g) o waits
              h in
          ground arith
    ]

-- The ports of the boot network are told apart from the others by a test.
module _ (in_boot : PortInfo → Bool) where
  abbrev Main : Port → Type 0
  Main port = in_boot (info_of port) ≡ false

  -- The stages that the hooks and the reports of the guest lead to. The user may change the machine
  -- and its volume before it is updated.
  pub data Reached : Stage → Type 0 where
    created :
        (pools : List Pool) (boot_port port : Port) (agents : Dict ℕ ℕ) (machine : Machine)
        (volume : MachineVolume) (b : Built)
        → in_boot (info_of boot_port) ≡ true
        → in_boot (info_of port) ≡ false
        → derivatives_on_create_update pools boot_port agents machine (port, volume) none ≡ ok b
        → Reached (record {
          machine = b.machine;
          pool_machine = b.pool_machine;
          guest_machine = b.guest_machine;
          reported = none;
        })
    updated :
        (pools : List Pool) (boot_port port : Port) (agents : Dict ℕ ℕ) (machine : Machine)
        (volume : MachineVolume) (b : Built) (stage : Stage)
        → in_boot (info_of boot_port) ≡ true
        → in_boot (info_of port) ≡ false
        → derivatives_on_create_update pools boot_port agents machine
            (port, volume)
            (some stage.reported)
          ≡ ok b
        → Reached stage
        → Reached (record stage {
          machine = b.machine;
          pool_machine = b.pool_machine;
          guest_machine = b.guest_machine;
        })
    reports :
        (guest : GuestMachine) (stage : Stage)
        → Reached stage
        → Reached (record stage { reported = some guest })
    outdated :
        (pools : List Pool) (port : Port) (volume : MachineVolume) (pool : Option PoolMachine)
        (o : Outdated) (stage : Stage)
        → in_boot (info_of port) ≡ false
        → derivatives_on_outdate pools
            (ok (port, volume))
            stage.machine
            (pool_pair stage.pool_machine pool ∷ guest_pair stage.guest_machine stage.reported ∷ [])
          ≡ ok o
        → Reached stage
        → Reached (record stage {
          machine = o.machine;
          pool_machine = o.pool_machine;
          guest_machine = o.guest_machine;
        })

  -- The agents are told the machine's boot and image, and the port is in the boot network when the
  -- machine boots from there.
  abbrev pub Coherent : Machine → PoolMachine → GuestMachine → Type 0
  Coherent machine pool guest =
      (pool.boot ≡ machine.boot)
      × (guest.boot ≡ machine.boot)
      × (pool.image ≡ machine.image)
      × (guest.image ≡ machine.image)
      × (in_boot pool.port_info ≡ is_network machine.boot)

  built-Coherent :
      (machine : Machine) (network_boot : Bool) (boot_port port : Port) (agents : Dict ℕ ℕ)
      (agent : Option ℕ) (image : Option Text) (b : Built)
      → in_boot (info_of boot_port) ≡ true
      → in_boot (info_of port) ≡ false
      → b
        ≡ built
            (record machine { boot = boot_of network_boot; image = image })
            (if network_boot then boot_port else port)
            agents
            agent
      → Coherent b.machine b.pool_machine b.guest_machine
  unfolding from_machine_and_port
  built-Coherent machine true boot_port port agents agent image b in_boot_port main same =
      ground arith
  built-Coherent machine false boot_port port agents agent image b in_boot_port main same =
      ground arith

  outdated-Coherent :
      (pools : List Pool) (port : Port) (volume : MachineVolume) (machine : Machine)
      (pool : PoolMachine) (guest : GuestMachine) (pool_actual : Option PoolMachine)
      (actual : Option GuestMachine) (o : Outdated)
      → in_boot (info_of port) ≡ false
      → derivatives_on_outdate pools
          (ok (port, volume))
          machine
          (pool_pair pool pool_actual ∷ guest_pair guest actual ∷ [])
        ≡ ok o
      → Coherent machine pool guest
      → Coherent o.machine o.pool_machine o.guest_machine
  outdated-Coherent pools port volume machine pool guest pool_actual actual o main h before =
      elim (Bool-cases (is_flashed actual)) [
        | inl flashed ↦
            let (agent, same) =
              outdate_flashed pools port volume machine pool guest pool_actual actual o flashed h in
            let kept = status_only (record machine { boot = hd 0 }) pool_actual actual in
            unfold from_machine_and_port in ground arith
        | inr waits ↦
            let same =
              outdate_waits pools (ok (port, volume)) machine pool guest pool_actual actual o waits
                h in
            let kept = status_only machine pool_actual actual in ground arith
      ]

  -- In every stage that the hooks lead to, the pool's agent and the guest's are told the boot and the
  -- image of the machine, and the port is in the boot network exactly when the machine boots from
  -- the network.
  pub Reached-Coherent :
      (stage : Stage)
      → Reached stage
      → Coherent stage.machine stage.pool_machine stage.guest_machine
  Reached-Coherent _ (created pools boot_port port agents machine volume b boot main h) =
      let (agent, same) = create_update_Built pools boot_port port agents machine volume none b h in
      built-Coherent machine (boots_from_network machine volume none) boot_port port agents agent
        volume.image b boot main same
  Reached-Coherent _ (updated pools boot_port port agents machine volume b stage boot main h r) =
      let (agent, same) =
        create_update_Built pools boot_port port agents machine volume (some stage.reported) b h in
      built-Coherent machine (boots_from_network machine volume (some stage.reported)) boot_port
        port agents agent volume.image b boot main same
  Reached-Coherent _ (reports guest stage r) = Reached-Coherent stage r
  Reached-Coherent _ (outdated pools port volume pool o stage main h r) =
      outdated-Coherent pools port volume stage.machine stage.pool_machine stage.guest_machine pool
        stage.reported o main h (Reached-Coherent stage r)
