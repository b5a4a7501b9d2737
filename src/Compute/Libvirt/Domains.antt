-- ===== src/Compute/Libvirt/Domains.antt =====
-- The conversions of `LibvirtPoolDriver` of exordos_core/compute/pool/drivers/libvirt.py between machines
-- and domains.
use genesis_core.Common.{ℕ, ◌+◌, ◌||◌, none, some, List, [], ◌∷◌, ◌++◌, length, if◌then◌else◌}
use genesis_core.Common.Outcome.{Outcome, ok, raised, ◌>>=◌}
use genesis_core.Common.Text.{Text, codes}
use genesis_core.Compute.Model.{MachineStatus, vm}
use genesis_core.Compute.Builders.Machines.Model.{Boot, hd, cdrom, network, PortInfo}
use genesis_core.Compute.Agent.Model.{Volume, Machine, DriverError, value_error}
use genesis_core.Compute.Libvirt.Model.{
  Spec, Domain, Disk, Interface, Texts, device_name, is_blank, drop, take, starts_with,
}

abbrev pub prefix_of : Spec → Text
prefix_of spec = elim spec.machine_prefix [ none ↦ [] | some prefix ↦ prefix ]

-- `str(machine.uuid)[:8] + "-"` between the prefix and the name.
unfoldable pub machine2domain_name : Texts → Spec → Machine → Text
unfolding take
machine2domain_name texts spec machine =
    prefix_of spec ++ (take 8 (texts.show_uuid machine.uuid) ++ codes "-") ++ machine.name

unfoldable pub domain2machine_name : Spec → Text → Text
unfolding drop
domain2machine_name spec name = drop (length (prefix_of spec) + 9) name

abbrev pub boot_type : Boot → Text
boot_type (hd index) = codes "hd"
boot_type cdrom = codes "cdrom"
boot_type network = codes "network"

-- The loop over the boot elements, with `alternative` the value that a text is of.
unfoldable pub boot_of : (alternative : Text → Boot) → List Text → Boot → Boot
unfolding starts_with
boot_of alternative [] boot = boot
boot_of alternative (dev ∷ devs) boot =
    let rest = boot_of alternative devs (alternative dev) in
    if starts_with dev (codes "hd0") then hd 0 else rest

unfoldable pub ports_of : List Interface → Outcome DriverError (List PortInfo)
ports_of [] = ok []
ports_of (interface ∷ interfaces) =
    if is_blank interface.mac || is_blank interface.source
    then raised value_error
    else (ports_of interfaces >>= λ ports. ok (
        record { ipv4 = none; mask = none; mac = interface.mac; source = some interface.source }
        ∷ ports))

unfoldable pub domain2machine :
    Texts → Spec → Domain → Outcome DriverError (Machine × List PortInfo)
unfolding domain2machine_name boot_of ports_of
domain2machine texts spec domain = ports_of domain.interfaces >>= λ ports. ok (
  record {
    uuid = domain.uuid;
    name = domain2machine_name spec domain.name;
    cores = domain.cores;
    ram = domain.ram;
    machine_type = vm;
    node = none;
    boot = boot_of texts.boot_alternative domain.boots network;
    image = domain.image;
    project_id = texts.service_project;
    status = MachineStatus.active;
  },
  ports,
)

-- `mac or generate_mac()`
abbrev pub mac_or : Text → Text → Text
mac_or generated mac = if is_blank mac then generated else mac

-- `interface_xml`, which wants a source.
unfoldable pub interface_of : Texts → PortInfo → Outcome DriverError Interface
interface_of texts port = elim port.source [
  | none ↦ raised value_error
  | some source ↦ ok (record { mac = mac_or texts.generated_mac port.mac; source = source })
]

unfoldable pub interfaces_of : Texts → List PortInfo → Outcome DriverError (List Interface)
unfolding interface_of
interfaces_of texts [] = ok []
interfaces_of texts (port ∷ ports) = interface_of texts port >>= λ interface.
    interfaces_of texts ports >>= λ interfaces. ok (interface ∷ interfaces)

unfoldable pub disks_of : (path : Volume → Text) → ℕ → List Volume → List Disk
unfolding device_name
disks_of path i [] = []
disks_of path i (volume ∷ volumes) =
    record { device = codes "disk"; path = some (path volume); target = device_name i }
    ∷ disks_of path (i + 1) volumes
