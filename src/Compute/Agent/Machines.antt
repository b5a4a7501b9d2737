-- ===== src/Compute/Agent/Machines.antt =====
-- `MetaMachine` of exordos_core/compute/agents/universal/drivers/pool.py. A method is given the model
-- itself, the pool and the state of the driver, and returns what it leaves of them.
-- The object of the data plane that an update changes is not read again before the pool is restored.
pub mod Room
use genesis_core.Common.{
  ℕ, ◌==◌, ◌&&◌, ltb, not, Bool, true, false, Option, none, some, List, [], ◌∷◌, map, if◌then◌else◌,
}
use genesis_core.Common.Dict
use genesis_core.Common.Dict.{nat_key}
use genesis_core.Common.Dict.Updates.{is_present}
use genesis_core.Common.Int.{ℤ, at_least, minus, plus}
use genesis_core.Common.Outcome.{Outcome, ok, raised, ◌>>=◌}
use genesis_core.Common.Text.{Text}
use genesis_core.Compute.Model.{NodeType, MachineStatus, VolumeStatus}
use genesis_core.Compute.Builders.Machines.{same_image}
use genesis_core.Compute.Builders.Machines.Model.{Boot, hd, cdrom, network, PortInfo}
use genesis_core.Compute.Agent.Model.{
  Volume, Machine, Driver, DriverError, Pool, AgentError, asked, resource_not_found,
  root_volume_not_found, pool_missing,
}

pub record MetaMachine : Type 0 where
  pub uuid : ℕ
  pub name : Text
  pub cores : ℕ
  pub ram : ℕ
  pub status : MachineStatus
  pub machine_type : NodeType
  pub node : Option ℕ
  pub boot : Boot
  pub image : Option Text
  pub project_id : ℕ
  pub port_info : PortInfo

-- The volumes sorted by their index, equal ones in their order.
unfoldable pub insert_volume : Volume → List Volume → List Volume
insert_volume v [] = v ∷ []
insert_volume v (w ∷ ws) =
    let rest = insert_volume v ws in if ltb w.index v.index then w ∷ rest else v ∷ w ∷ ws

unfoldable pub sorted_volumes : List Volume → List Volume
unfolding insert_volume
sorted_volumes [] = []
sorted_volumes (v ∷ vs) = insert_volume v (sorted_volumes vs)

-- `dp_machine.image or self.image`
abbrev pub image_or : Option Text → Option Text → Option Text
image_or (some (c ∷ image)) own = some (c ∷ image)
image_or _ own = own

-- Of the first port, the address and the mask are those that the model has.
abbrev pub port_info_of : PortInfo → List PortInfo → PortInfo
port_info_of own [] = own
port_info_of own (port ∷ _) = record own { mac = port.mac; source = port.source }

unfoldable pub from_dp_machine : MetaMachine → Machine → List PortInfo → MetaMachine
from_dp_machine self dp ports = record self {
  cores = dp.cores;
  ram = dp.ram;
  status = dp.status;
  boot = dp.boot;
  port_info = port_info_of self.port_info ports;
  image = image_or dp.image self.image;
}

abbrev pub with_status : MachineStatus → MetaMachine → MetaMachine
with_status status self = record self { status = status }

unfoldable pub has_enough_resources : Pool → ℕ → ℕ → Bool
has_enough_resources pool cores ram = at_least pool.avail_cores cores && at_least pool.avail_ram ram

unfoldable pub allocate_resources : ℕ → ℕ → Pool → Pool
allocate_resources cores ram pool = record pool {
  avail_cores = minus pool.avail_cores cores;
  avail_ram = minus pool.avail_ram ram;
}

abbrev pub new_machine : MetaMachine → Machine
new_machine self = record {
  uuid = self.uuid;
  name = self.name;
  cores = self.cores;
  ram = self.ram;
  machine_type = self.machine_type;
  node = self.node;
  boot = self.boot;
  image = self.image;
  project_id = self.project_id;
  status = MachineStatus.new;
}

-- `_to_dp_volume`
abbrev pub to_dp_volume : Volume → Volume
to_dp_volume v = record v { status = VolumeStatus.new }

abbrev pub is_failed : VolumeStatus → Bool
is_failed VolumeStatus.error = true
is_failed _ = false

abbrev pub same_boot : Boot → Boot → Bool
same_boot (hd i) (hd j) = i == j
same_boot cdrom cdrom = true
same_boot network network = true
same_boot _ _ = false

-- `dp_machine.image and self.image != dp_machine.image`
abbrev pub image_differs : Option Text → Option Text → Bool
image_differs own (some (c ∷ image)) = not (same_image own (some (c ∷ image)))
image_differs own _ = false

-- An update goes on with the machine of the data plane, or ends with a status.
pub data Progress (S : Type 0) : Type 0 where
  goes : Machine → Pool → S → Progress S
  ends : MachineStatus → Pool → S → Progress S

abbrev pub found : MetaMachine → Pool → Outcome AgentError Machine
found self pool = elim (Dict.get self.uuid pool.machines) [
  | none ↦ raised resource_not_found
  | some dp ↦ ok dp
]

abbrev pub first_port : Option (List PortInfo) → List PortInfo
first_port (some (port ∷ _)) = port ∷ []
first_port _ = []

unfoldable pub restore_from_dp : MetaMachine → Option Pool → Outcome AgentError MetaMachine
unfolding from_dp_machine
restore_from_dp self none = raised pool_missing
restore_from_dp self (some pool) = found self pool >>= λ dp.
    ok (from_dp_machine self dp (first_port (Dict.get self.uuid pool.ports)))

-- A machine of before has no image, which it gets when its cores change.
abbrev pub enriched : Machine → Option Text → Machine
enriched dp image = elim dp.image [ none ↦ record dp { image = image } | some _ ↦ dp ]

module _ {S : Type 0} (driver : Driver S) where
  abbrev pub created :
      MetaMachine → List Volume → Pool → S → Outcome AgentError (MetaMachine × Pool × S)
  created self volumes pool s =
      asked (
        driver.create_machine (new_machine self) (map to_dp_volume volumes) (self.port_info ∷ []) s)
      >>= λ made.
          ok (with_status made.0.status self, allocate_resources self.cores self.ram pool, made.1)

  -- `dump_to_dp` with the volumes sorted.
  abbrev pub dump_sorted :
      MetaMachine → List Volume → Pool → S → Outcome AgentError (MetaMachine × Pool × S)
  dump_sorted self [] pool s = raised root_volume_not_found
  dump_sorted self (root ∷ volumes) pool s =
      if not (root.index == 0)
      then raised root_volume_not_found
      else (if is_failed root.status
          then ok (with_status MachineStatus.error self, pool, s)
          else (if has_enough_resources pool self.cores self.ram
              then created self (root ∷ volumes) pool s
              else ok (with_status MachineStatus.need_reschedule self, pool, s)))

  unfoldable pub dump_to_dp :
      MetaMachine → List Volume → Pool → S → Outcome AgentError (MetaMachine × Pool × S)
  unfolding sorted_volumes has_enough_resources allocate_resources
  dump_to_dp self volumes pool s =
      if is_present (Dict.get self.uuid pool.machines)
      then ok (self, pool, s)
      else dump_sorted self (sorted_volumes volumes) pool s

  unfoldable pub delete_from_dp : MetaMachine → Pool → S → Outcome AgentError S
  delete_from_dp self pool s = found self pool >>= λ dp. asked (driver.delete_machine dp s)

  unfoldable pub update_cores : MetaMachine → Machine → Pool → S → Outcome AgentError (Progress S)
  update_cores self dp pool s =
      if self.cores == dp.cores
      then ok (goes dp pool s)
      else (if at_least (plus pool.avail_cores dp.cores) self.cores
          then (asked (driver.set_machine_cores (enriched dp self.image) self.cores s) >>= λ done.
              ok (
                goes done.0
                  (record pool { avail_cores = minus (plus pool.avail_cores dp.cores) self.cores })
                  done.1))
          else ok (ends MachineStatus.error pool s))

  unfoldable pub update_ram : MetaMachine → Machine → Pool → S → Outcome AgentError (Progress S)
  update_ram self dp pool s =
      if self.ram == dp.ram
      then ok (goes dp pool s)
      else (if at_least (plus pool.avail_ram dp.ram) self.ram
          then (asked (driver.set_machine_ram dp self.ram s) >>= λ done. ok (
              goes done.0 (record pool { avail_ram = minus (plus pool.avail_ram dp.ram) self.ram })
                done.1))
          else ok (ends MachineStatus.error pool s))

  abbrev pub recreated : MetaMachine → Machine → Pool → S → Outcome AgentError (Progress S)
  recreated self dp pool s =
      asked (driver.recreate_machine dp (self.port_info ∷ []) s) >>= λ s'. ok (goes dp pool s')

  unfoldable pub update_image : MetaMachine → Machine → Pool → S → Outcome AgentError (Progress S)
  update_image self dp pool s =
      if image_differs self.image dp.image
      then recreated self (record dp { image = self.image; boot = self.boot }) pool s
      else ok (goes dp pool s)

  unfoldable pub update_boot : MetaMachine → Machine → Pool → S → Outcome AgentError (Progress S)
  update_boot self dp pool s =
      if same_boot dp.boot self.boot
      then ok (goes dp pool s)
      else recreated self (record dp { boot = self.boot }) pool s

  abbrev pub and_then :
      (Machine → Pool → S → Outcome AgentError (Progress S))
      → Progress S
      → Outcome AgentError (Progress S)
  and_then next (goes dp pool s) = next dp pool s
  and_then next (ends status pool s) = ok (ends status pool s)

  -- The end of `update_on_dp`: what the driver reports is taken over.
  abbrev pub finished : MetaMachine → Progress S → Outcome AgentError (MetaMachine × Pool × S)
  finished self (ends status pool s) = ok (with_status status self, pool, s)
  finished self (goes dp pool s) = asked (driver.get_machine self.uuid s) >>= λ now.
      ok (from_dp_machine self now.0 now.1, pool, s)

  unfoldable pub update_on_dp : MetaMachine → Pool → S → Outcome AgentError (MetaMachine × Pool × S)
  unfolding update_cores update_ram update_image update_boot from_dp_machine
  update_on_dp self pool s = found self pool >>= λ dp. update_cores self dp pool s >>= λ p1.
      and_then (update_ram self) p1 >>= λ p2. and_then (update_image self) p2 >>= λ p3.
      and_then (update_boot self) p3 >>= λ p4. finished self p4
