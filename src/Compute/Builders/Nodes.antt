-- ===== src/Compute/Builders/Nodes.antt =====
-- `NodeBuilderService` of exordos_core/compute/builders/node.py. The volumes that the specification of
-- the disks makes of a node are arguments, as is the test of two specifications; the tables of volumes
-- and machines are dictionaries by identifier. The order of a set of identifiers has no effect here.
pub mod Disks
use genesis_core.Common.{
  ℕ, ◌==◌, ◌&&◌, ◌||◌, not, Bool, true, false, Option, none, some, List, [], ◌∷◌, if◌then◌else◌,
}
use genesis_core.Common.Dict
use genesis_core.Common.Dict.{Dict, nat_key}
use genesis_core.Common.Dict.Updates.{is_present}
use genesis_core.Common.Text.{Text, text_beq}
use genesis_core.Compute.Model.{NodeStatus, MachineStatus, VolumeStatus}

pub record Volume : Type 0 where
  pub uuid : ℕ
  pub index : ℕ
  pub size : ℕ
  pub image : Option Text
  pub name : Text
  pub description : Text
  pub boot : Bool
  pub device_type : Text
  pub label : Option Text
  pub status : VolumeStatus

pub record Node : Type 0 where
  pub uuid : ℕ
  pub name : Text
  pub description : Text
  pub hostname : Option Text
  pub cores : ℕ
  pub ram : ℕ

pub record Machine : Type 0 where
  pub cores : ℕ
  pub ram : ℕ
  pub name : Text
  pub description : Text
  pub status : MachineStatus

abbrev pub same_text : Option Text → Option Text → Bool
same_text none none = true
same_text (some s) (some t) = text_beq s t
same_text _ _ = false

abbrev pub same_bool : Bool → Bool → Bool
same_bool true b = b
same_bool false b = not b

-- `_actualize_volume`
unfoldable pub actualize_volume : Volume → Volume → Volume
actualize_volume target actual = record actual {
  size = target.size;
  image = target.image;
  name = target.name;
  description = target.description;
  boot = target.boot;
  device_type = target.device_type;
  label = target.label;
  status = VolumeStatus.in_progress;
}

-- The fields by which a volume is required to be updated.
unfoldable pub volume_differs : Volume → Volume → Bool
volume_differs target actual =
    not (target.size == actual.size)
    || not (same_text target.image actual.image)
    || not (same_text target.label actual.label)
    || not (text_beq target.device_type actual.device_type)
    || not (same_bool target.boot actual.boot)

unfoldable pub by_uuid : List Volume → Dict ℕ Volume → Dict ℕ Volume
by_uuid [] volumes = volumes
by_uuid (v ∷ vs) volumes = by_uuid vs (Dict.put v.uuid v volumes)

-- The loop over `target_map.keys() - actual_map.keys()`.
unfoldable pub create_missing : Dict ℕ Volume → Dict ℕ Volume → Dict ℕ Volume → Dict ℕ Volume
create_missing [] actual table = table
create_missing ((uuid, v) ∷ target) actual table =
    create_missing target actual
      (if is_present (Dict.get uuid actual) then table else Dict.put uuid v table)

-- The loop over `actual_map.keys() - target_map.keys()`.
unfoldable pub delete_extra : Dict ℕ Volume → Dict ℕ Volume → Dict ℕ Volume → Dict ℕ Volume
delete_extra target [] table = table
delete_extra target ((uuid, v) ∷ actual) table =
    delete_extra target actual
      (if is_present (Dict.get uuid target) then table else Dict.remove uuid table)

-- What `need_update` has for a volume.
abbrev pub wanted_update : Option Volume → Option Volume → Option Volume
wanted_update (some target) (some actual) =
    if volume_differs target actual then some target else none
wanted_update _ _ = none

abbrev pub updated : Option Volume → Volume → Volume
updated none v = v
updated (some target) v = actualize_volume target v

-- The rows of the table that need an update.
unfoldable pub update_changed : Dict ℕ Volume → Dict ℕ Volume → Dict ℕ Volume → Dict ℕ Volume
unfolding volume_differs actualize_volume
update_changed target actual [] = []
update_changed target actual ((uuid, v) ∷ table) =
    (uuid, updated (wanted_update (Dict.get uuid target) (Dict.get uuid actual)) v)
    ∷ update_changed target actual table

abbrev pub is_root_change : Volume → Option Volume → Bool
is_root_change target none = false
is_root_change target (some actual) = volume_differs target actual && target.index == 0

unfoldable pub root_changed : Dict ℕ Volume → Dict ℕ Volume → Bool
unfolding volume_differs
root_changed [] actual = false
root_changed ((uuid, v) ∷ target) actual =
    is_root_change v (Dict.get uuid actual) || root_changed target actual

-- `_actualize_volumes`: whether the machine is to be updated, and the table.
unfoldable pub actualize_volumes : List Volume → List Volume → Dict ℕ Volume → Bool × Dict ℕ Volume
unfolding by_uuid create_missing delete_extra update_changed root_changed
actualize_volumes target_volumes actual_volumes table =
    let target = by_uuid target_volumes [] in
    let actual = by_uuid actual_volumes [] in
    (
      root_changed target actual,
      update_changed target actual
          (delete_extra target actual (create_missing target actual table)),
    )

abbrev pub same_config : Node → ℕ → ℕ → Text → Text → Bool
same_config node cores ram name description =
    node.cores == cores
    && node.ram == ram
    && text_beq node.name name
    && text_beq node.description description

abbrev pub configured : Node → Machine
configured node = record {
  cores = node.cores;
  ram = node.ram;
  name = node.name;
  description = node.description;
  status = MachineStatus.in_progress;
}

abbrev pub update_row : Node → Bool → Option Machine → Dict ℕ Machine → Dict ℕ Machine
update_row target force none machines = machines
update_row target force (some machine) machines =
    if not force && same_config target machine.cores machine.ram machine.name machine.description
    then machines
    else Dict.put target.uuid (configured target) machines

-- `_update_machine`
unfoldable pub update_machine : Node → Node → Bool → Dict ℕ Machine → Dict ℕ Machine
update_machine target actual force machines =
    let forced = force || not (same_text target.hostname actual.hostname) in
    if not forced && same_config target actual.cores actual.ram actual.name actual.description
    then machines
    else update_row target forced (Dict.get target.uuid machines) machines

-- `pre_update_instance_resource`; `same_disks` tells whether the two specifications are equal.
unfoldable pub pre_update_instance_resource :
    Node
    → Node
    → (same_disks : Bool) → (target_volumes actual_volumes : List Volume) → Dict ℕ Volume
    → Dict ℕ Machine
    → Dict ℕ Volume × Dict ℕ Machine
unfolding actualize_volumes update_machine
pre_update_instance_resource target actual same_disks target_volumes actual_volumes volumes
      machines =
    let (changed, volumes') =
      if same_disks
      then (false, volumes)
      else actualize_volumes target_volumes actual_volumes volumes in
    (volumes', update_machine target actual changed machines)

-- `actualize_instance_with_outdated_tracked`
unfoldable pub tracked_status : {Status : Type 0} → Status → List Status → Status
tracked_status current (status ∷ []) = status
tracked_status current _ = current
