-- ===== src/Compute/Libvirt/Cases.antt =====
-- A hypervisor that keeps its domains and volumes in lists, and the theorems on the driver at it.
use genesis_core.Common.{
  ℕ, ◌+◌, ◌*◌, ◌-◌, ◌==◌, ◌≡◌, refl, not, true, false, Option, none, some, List, [], ◌∷◌, ◌++◌,
  arith, ltb, select, if◌then◌else◌,
}
use genesis_core.Common.Dict
use genesis_core.Common.Dict.{nat_key}
use genesis_core.Common.Int.{pos}
use genesis_core.Common.Outcome.{Outcome, ok, raised}
use genesis_core.Common.Text.{Text, codes, text_beq}
use genesis_core.Compute.Model.{vm, MachineStatus, VolumeStatus}
use genesis_core.Compute.Builders.Machines.Model.{Boot, cdrom, network, PortInfo}
use genesis_core.Compute.Agent.Model.{Volume, Machine, Pool}
use genesis_core.Compute.Agent.Volumes
use genesis_core.Compute.Libvirt.{
  delete_machine, create_machine, get_machine, libvirt_driver, destroyed,
}
use genesis_core.Compute.Libvirt.Model.{
  Spec, Libvirt, LibvirtError, no_domain, no_storage_vol, other_error, Domain, VirVolume, Texts,
  dir,
}
use genesis_core.Compute.Libvirt.Removal.{is_listed, delete_machine_volumes}
use genesis_core.Compute.Libvirt.Reports.{
  Knows, KeepsDomains, reported_machine, reported_port, get_machine-create_machine,
}
use genesis_core.Compute.Libvirt.Updates.{update_on_dp_reports}

abbrev no_uuid : Text
no_uuid = codes "0000000-0000-0000-0000-000000000000"

abbrev parse : Text → Option ℕ
parse [] = none
parse (c ∷ rest) = if text_beq rest no_uuid then some (c - 48) else none

abbrev read_boot : Text → Boot
read_boot t = if text_beq t (codes "cdrom") then cdrom else network

abbrev texts : Texts
texts = record {
  show_uuid = λ uuid. (48 + uuid) ∷ no_uuid;
  parse_uuid = parse;
  show_disk = λ disk. elim disk.path [ none ↦ [] | some path ↦ path ];
  boot_alternative = read_boot;
  generated_mac = codes "aa";
  service_project = 7;
}

abbrev spec : Spec
spec = record { machine_prefix = some (codes "vm-") }

record Host : Type 0 where
  domains : List Domain
  volumes : List VirVolume

abbrev host_domain : ℕ → List Domain → Outcome LibvirtError Domain
host_domain uuid [] = raised no_domain
host_domain uuid (d ∷ ds) = let rest = host_domain uuid ds in if d.uuid == uuid then ok d else rest

abbrev find_volume : Text → List VirVolume → Outcome LibvirtError VirVolume
find_volume name [] = raised no_storage_vol
find_volume name (v ∷ vs) =
    let rest = find_volume name vs in if text_beq v.name name then ok v else rest

abbrev host_without : ℕ → List Domain → List Domain
host_without uuid = select (λ d. not (d.uuid == uuid))

-- The first two tries of a deletion fail.
abbrev host : Libvirt Host
host = record {
  storage_pool = λ s. ok (record { pool_type = some dir; path = codes "/p"; active = true });
  domains = λ s. s.domains;
  volumes = λ s. s.volumes;
  lookup = λ uuid s. host_domain uuid s.domains;
  lookup_volume = λ name s. find_volume name s.volumes;
  define = λ domain s. ok (record s { domains = domain ∷ s.domains });
  start = λ uuid s. ok s;
  set_autostart = λ uuid s. ok s;
  is_active = λ uuid s. ok true;
  destroy = λ uuid s. ok s;
  shutdown = λ uuid s. ok s;
  undefine = λ uuid s. ok (record s { domains = host_without uuid s.domains });
  attach_disk = λ uuid disk s. ok s;
  detach_disk = λ uuid disk s. ok s;
  attach_interface = λ uuid interface s. ok s;
  detach_interface = λ uuid interface s. ok s;
  block_resize = λ uuid dev size s. ok s;
  create_volume = λ name size s. ok s;
  refresh = λ s. ok s;
  wipe = λ name s. ok s;
  delete_volume = λ i name s.
      if ltb i 2
      then raised other_error
      else ok (record s { volumes = select (λ v. not (text_beq v.name name)) s.volumes });
  resize_volume = λ name size s. ok s;
}

abbrev disk_name : Text
disk_name = 49 ∷ no_uuid

abbrev image : VirVolume
image = record {
  name = disk_name ++ codes ".qcow2";
  path = codes "/p/" ++ disk_name ++ codes ".qcow2";
  size = 10 * 1073741824;
}

abbrev web : Machine
web = record {
  uuid = 3;
  name = codes "web";
  cores = 2;
  ram = 4;
  machine_type = vm;
  node = some 8;
  boot = cdrom;
  image = none;
  project_id = 2;
  status = MachineStatus.new;
}

abbrev root : Volume
root = record {
  uuid = 1;
  name = disk_name;
  image = none;
  size = 10;
  boot = true;
  label = none;
  device_type = [];
  index = 0;
  machine = some 3;
  project_id = 2;
  status = VolumeStatus.active;
}

abbrev port : PortInfo
port = record { ipv4 = some 10; mask = some 24; mac = codes "a9:00"; source = some (codes "net") }

abbrev empty : Host
empty = record { domains = []; volumes = image ∷ [] }

abbrev web_domain : Domain
web_domain = record {
  uuid = 3;
  name = codes "vm-30000000-web";
  cores = 2;
  ram = 4;
  image = none;
  boots = codes "cdrom" ∷ [];
  interfaces = record { mac = codes "a9:00"; source = codes "net" } ∷ [];
  disks = record { device = codes "disk"; path = some image.path; target = codes "vda" } ∷ [];
}

abbrev running : Host
running = record empty { domains = web_domain ∷ [] }

creates_web :
    create_machine texts spec host web (root ∷ []) (port ∷ []) false empty ≡ ok (web, running)
unfolding create_machine
creates_web = refl

keeps : KeepsDomains host
keeps = record {
  defined = λ domain s t h. ground arith;
  started = λ uuid s t h. ground arith;
  autostarted = λ uuid s t h. ground arith;
}

knows : Knows texts spec
knows = record { cdrom_boot = refl; network_boot = refl }

get_machine-create_machine_example :
    get_machine texts spec host 3 running
    ≡ ok (reported_machine texts spec web, reported_port texts spec port ∷ [])
unfolding genesis_core.Compute.Libvirt.Model.take
get_machine-create_machine_example =
    get_machine-create_machine texts spec host keeps knows web web (root ∷ []) (port ∷ []) false
      empty running refl refl creates_web

web_gone :
    (t : Host) (h : host.undefine 3 (destroyed texts spec host 3 running) ≡ ok t)
    → is_listed 3 (host.domains t) ≡ false
web_gone t h = ground arith

deletes_web : delete_machine texts spec host web true running ≡ ok empty
unfolding delete_machine genesis_core.Compute.Agent.Machines.sorted_volumes
deletes_web = refl

delete_machine_volumes_example : delete_machine texts spec host web false running ≡ ok empty
delete_machine_volumes_example =
    delete_machine_volumes texts spec host web running empty web_gone deletes_web

abbrev the_pool : Pool
the_pool = record {
  all_cores = pos 8;
  all_ram = pos 8;
  avail_cores = pos 6;
  avail_ram = pos 4;
  storage_pools = record { capacity = 100; capacity_provisioned = 10 } ∷ [];
  machines = (3, web) ∷ [];
  ports = [];
  volumes = (1, root) ∷ [];
}

abbrev now : Volume
now = record root { index = 4096 }

updates_root :
    Volumes.update_on_dp (libvirt_driver texts spec host) root the_pool running
    ≡ ok (now, the_pool, running)
unfolding Volumes.update_on_dp Dict.get genesis_core.Compute.Libvirt.Listing.get_volume
updates_root = refl

update_on_dp_reports_example : (now.index ≡ 4096) × (now.machine ≡ root.machine)
unfolding Dict.get Volumes.is_root_volume
update_on_dp_reports_example =
    update_on_dp_reports texts spec host root now root the_pool the_pool running running refl refl
      refl updates_root
