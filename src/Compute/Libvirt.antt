-- ===== src/Compute/Libvirt.antt =====
-- `LibvirtPoolDriver` of exordos_core/compute/pool/drivers/libvirt.py. The hypervisor is a parameter;
-- a document of a domain is the record of the elements that the code sets and reads.
pub mod Domains
pub mod Listing
pub mod Model
pub mod Volumes
pub mod Removal
pub mod Reports
pub mod Updates
mod Cases
use genesis_core.Common.{
  ℕ, ◌+◌, ◌==◌, ◌&&◌, ◌||◌, not, Bool, true, false, Option, none, some, List, [], ◌∷◌, ◌++◌, any,
  select, length, if◌then◌else◌,
}
use genesis_core.Common.Outcome.{Outcome, ok, raised, ◌>>=◌}
use genesis_core.Common.Text.{Text, codes, text_beq}
use genesis_core.Compute.Model.{MachineStatus, vm}
use genesis_core.Compute.Builders.Machines.Model.{Boot, hd, cdrom, network, PortInfo}
use genesis_core.Compute.Agent.Model.{
  Volume, Machine, Driver, DriverError, machine_not_found, port_not_attached, libvirt_error,
  value_error,
}
use genesis_core.Compute.Libvirt.Model.{
  Spec, Libvirt, LibvirtError, no_domain, operation_invalid, Domain, Disk, Interface, Texts,
  StoragePoolInfo, StoragePoolType, volume_name, legacy_volume_name, device_name, is_blank, drop,
  take, starts_with, called, type_of,
}
use genesis_core.Compute.Libvirt.Volumes.{
  attach_volume, create_volume, delete_volume, detach_volume, resize_volume, machine_found,
  valid_or,
}
use genesis_core.Compute.Libvirt.Listing.{get_volume, list_volumes, is_legacy_domain}
use genesis_core.Compute.Libvirt.Domains.{
  prefix_of, machine2domain_name, domain2machine_name, boot_type, boot_of, ports_of, domain2machine,
  mac_or, interface_of, interfaces_of, disks_of,
}

module _ {S : Type 0} (texts : Texts) (spec : Spec) (lv : Libvirt S) where
  -- The volumes of a legacy domain are named with the machine.
  abbrev pub disk_path : StoragePoolInfo → StoragePoolType → Bool → ℕ → Volume → Text
  disk_path pool kind legacy machine volume =
      pool.path
      ++ codes "/"
      ++ (if legacy
          then legacy_volume_name kind volume.name (texts.show_uuid machine)
          else volume_name kind volume.name)

  unfoldable pub domain_of : Machine → List Interface → List Disk → Domain
  unfolding machine2domain_name
  domain_of machine interfaces disks = record {
    uuid = machine.uuid;
    name = machine2domain_name texts spec machine;
    cores = machine.cores;
    ram = machine.ram;
    image = machine.image;
    boots = boot_type machine.boot ∷ [];
    interfaces = interfaces;
    disks = disks;
  }

  unfoldable pub create_domain : Domain → S → Outcome DriverError S
  create_domain domain s = do
    defined ← called (lv.define domain s)
    started ← called (lv.start domain.uuid defined)
    called (lv.set_autostart domain.uuid started)

  unfoldable pub create_machine :
      Machine → List Volume → List PortInfo → Bool → S → Outcome DriverError (Machine × S)
  unfolding interfaces_of disks_of volume_name legacy_volume_name domain_of create_domain
  create_machine machine volumes ports legacy s = do
    interfaces ← interfaces_of texts ports
    pool ← called (lv.storage_pool s)
    kind ← type_of pool
    s' ←
        create_domain
          (domain_of machine interfaces
            (disks_of (disk_path pool kind legacy machine.uuid) 0 volumes))
          s
    ok (machine, s')

  -- A domain that is not running cannot be destroyed; that is no failure.
  abbrev pub destroyed : ℕ → S → S
  destroyed uuid s = elim (lv.destroy uuid s) [ raised failure ↦ s | ok s' ↦ s' ]

  abbrev pub delete_volumes : List Volume → S → Outcome DriverError S
  delete_volumes [] s = ok s
  delete_volumes (volume ∷ volumes) s = delete_volume lv volume s >>= delete_volumes volumes

  unfoldable pub delete_machine : Machine → Bool → S → Outcome DriverError S
  unfolding delete_volume list_volumes
  delete_machine machine with_volumes s = called (lv.lookup machine.uuid s) >>= λ domain.
      called (lv.undefine machine.uuid (destroyed machine.uuid s)) >>= λ undefined.
      if with_volumes
      then (list_volumes texts lv (some machine.uuid) undefined >>= λ volumes.
          delete_volumes volumes undefined)
      else ok undefined

  unfoldable pub get_machine : ℕ → S → Outcome DriverError (Machine × List PortInfo)
  unfolding domain2machine
  get_machine uuid s = called (lv.lookup uuid s) >>= domain2machine texts spec

  -- The prefix that is not set or is empty lets every domain pass.
  unfoldable pub list_machines : S → Outcome DriverError (List (Machine × List PortInfo))
  unfolding domain2machine starts_with
  list_machines s =
      each (select (λ domain. starts_with (prefix_of spec) domain.name) (lv.domains s))
    where
      each : List Domain → Outcome DriverError (List (Machine × List PortInfo))
      each [] = ok []
      each (domain ∷ domains) = domain2machine texts spec domain >>= λ machine.
          each domains >>= λ machines. ok (machine ∷ machines)

  unfoldable pub list_interfaces : Machine → S → Outcome DriverError (List PortInfo)
  unfolding ports_of
  list_interfaces machine s =
      called (lv.lookup machine.uuid s) >>= λ domain. ports_of domain.interfaces

  -- The interfaces that are given, or those that the domain has.
  abbrev pub ports_or : Option (List PortInfo) → Machine → S → Outcome DriverError (List PortInfo)
  ports_or (some ports) machine s = ok ports
  ports_or none machine s = list_interfaces machine s

  -- `recreate_machine`, and what the methods do that change a field of the machine: the domain of `old`
  -- is deleted, one for `machine` is created.
  unfoldable pub recreate :
      Machine → Machine → Option (List PortInfo) → S → Outcome DriverError (Machine × S)
  unfolding list_interfaces list_volumes is_legacy_domain create_machine delete_machine
  recreate old machine ports s = do
    ports' ← ports_or ports old s
    volumes ← list_volumes texts lv (some old.uuid) s
    domain ← called (lv.lookup old.uuid s)
    deleted ← delete_machine old false s
    create_machine machine volumes ports' (is_legacy_domain texts domain.disks) deleted

  unfoldable pub set_machine_cores : Machine → ℕ → S → Outcome DriverError (Machine × S)
  unfolding recreate
  set_machine_cores machine cores = recreate machine (record machine { cores = cores }) none

  unfoldable pub set_machine_ram : Machine → ℕ → S → Outcome DriverError (Machine × S)
  unfolding recreate
  set_machine_ram machine ram = recreate machine (record machine { ram = ram }) none

  unfoldable pub rename_machine : Machine → Text → S → Outcome DriverError (Machine × S)
  unfolding recreate
  rename_machine machine name = recreate machine (record machine { name = name }) none

  unfoldable pub recreate_machine :
      Machine → Option (List PortInfo) → S → Outcome DriverError (Machine × S)
  unfolding recreate
  recreate_machine machine ports = recreate machine machine ports

  unfoldable pub reset_machine : Machine → S → Outcome DriverError S
  reset_machine machine s = called (lv.lookup machine.uuid s) >>= λ domain.
      called (lv.start machine.uuid (destroyed machine.uuid s))

  unfoldable pub shutdown_machine : Machine → Bool → S → Outcome DriverError S
  shutdown_machine machine force s = called (lv.lookup machine.uuid s) >>= λ domain.
      called (if force then lv.destroy machine.uuid s else lv.shutdown machine.uuid s)

  unfoldable pub start_machine : Machine → S → Outcome DriverError S
  start_machine machine s =
      called (lv.lookup machine.uuid s) >>= λ domain. called (lv.start machine.uuid s)

  -- The first interface with the address of the port.
  abbrev pub interface_with : Text → List Interface → Option Interface
  interface_with mac [] = none
  interface_with mac (interface ∷ interfaces) =
      let rest = interface_with mac interfaces in
      if text_beq interface.mac mac then some interface else rest

  unfoldable pub detach_port : Machine → PortInfo → S → Outcome DriverError S
  detach_port machine port s = machine_found lv (lv.lookup machine.uuid s) >>= λ domain.
      elim (interface_with port.mac domain.interfaces) [
        | none ↦ raised port_not_attached
        | some interface ↦
            valid_or lv port_not_attached (lv.detach_interface machine.uuid interface s)
      ]

  abbrev pub libvirt_driver : Driver S
  libvirt_driver = record {
    create_volume = create_volume lv;
    delete_volume = delete_volume lv;
    resize_volume = resize_volume lv;
    attach_volume = attach_volume lv texts;
    detach_volume = detach_volume lv;
    get_volume = get_volume texts lv;
    create_machine = λ machine volumes ports. create_machine machine volumes ports false;
    delete_machine = λ machine. delete_machine machine true;
    get_machine = get_machine;
    set_machine_cores = set_machine_cores;
    set_machine_ram = set_machine_ram;
    recreate_machine =
        λ machine ports s. recreate_machine machine (some ports) s >>= λ done. ok done.1;
  }
