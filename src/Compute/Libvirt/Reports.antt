-- ===== src/Compute/Libvirt/Reports.antt =====
-- What the driver reports of the machines it created and of the volumes it is asked for.
use genesis_core.Common.{
  ℕ, ◌+◌, ◌≡◌, refl, sym, ap, ◌∙◌, ◌&&◌, not, Bool, true, false, none, some, List, [], ◌∷◌, ◌++◌,
  arith, all, length, length-append, map, inl, inr, Option-cases,
}
use genesis_core.Common.Dict.{nat_key}
use genesis_core.Common.Outcome.{ok, Outcome-cases}
use genesis_core.Common.Text.{Text, codes}
use genesis_core.Compute.Model.{MachineStatus, vm}
use genesis_core.Compute.Builders.Machines.Model.{Boot, hd, cdrom, network, PortInfo}
use genesis_core.Compute.Agent.Model.{Volume, Machine}
use genesis_core.Compute.Libvirt.{domain_of, disk_path, create_domain, create_machine, get_machine}
use genesis_core.Compute.Libvirt.Domains.{
  prefix_of, machine2domain_name, domain2machine_name, boot_of, boot_type, ports_of, domain2machine,
  interface_of, interfaces_of, disks_of,
}
use genesis_core.Compute.Libvirt.Model.{
  Spec, Libvirt, Domain, Interface, Disk, Texts, called, drop, take, is_blank, starts_with, type_of,
}

drop_all : (s t : Text) → drop (length s) (s ++ t) ≡ t
unfolding drop
drop_all [] t = refl
drop_all (c ∷ s) t = drop_all s t

module _ (texts : Texts) (spec : Spec) where
  domain2machine_name_lem :
      (machine : Machine) (short : length (take 8 (texts.show_uuid machine.uuid)) ≡ 8)
      → domain2machine_name spec (machine2domain_name texts spec machine) ≡ machine.name
  unfolding domain2machine_name machine2domain_name
  domain2machine_name_lem machine short =
      let middle = take 8 (texts.show_uuid machine.uuid) ++ codes "-" in
      let size =
        length-append (prefix_of spec) middle
        ∙ ap (λ (n : ℕ). length (prefix_of spec) + n)
            (length-append (take 8 (texts.show_uuid machine.uuid)) (codes "-")
              ∙ ap (λ (n : ℕ). n + 1) short) in
      ap (λ (n : ℕ). drop n (prefix_of spec ++ middle ++ machine.name)) (sym size)
      ∙ drop_all (prefix_of spec ++ middle) machine.name

  -- Of a disk to boot from only comes back that it is one.
  abbrev pub reported_boot : Boot → Boot
  reported_boot (hd index) = hd 0
  reported_boot cdrom = cdrom
  reported_boot network = network

  pub record Knows : Type 0 where
    pub cdrom_boot : texts.boot_alternative (codes "cdrom") ≡ cdrom
    pub network_boot : texts.boot_alternative (codes "network") ≡ network

  boot_of_lem :
      (knows : Knows) (boot : Boot)
      → boot_of texts.boot_alternative (boot_type boot ∷ []) network ≡ reported_boot boot
  unfolding boot_of starts_with
  boot_of_lem knows (hd index) = refl
  boot_of_lem knows cdrom = knows.cdrom_boot
  boot_of_lem knows network = knows.network_boot

  abbrev pub reported_port : PortInfo → PortInfo
  reported_port port = record port { ipv4 = none; mask = none }

  abbrev pub is_complete : PortInfo → Bool
  is_complete port = elim port.source [
    | none ↦ false
    | some source ↦ not (is_blank port.mac) && not (is_blank source)
  ]

  ports_of_lem :
      (ports : List PortInfo) (complete : all is_complete ports ≡ true)
      (interfaces : List Interface) (h : interfaces_of texts ports ≡ ok interfaces)
      → ports_of interfaces ≡ ok (map reported_port ports)
  unfolding ports_of interfaces_of interface_of
  ports_of_lem [] complete interfaces h = ground arith
  ports_of_lem (port ∷ ports) complete interfaces h = elim (Option-cases port.source) [
    | inl unknown ↦ ground arith
    | inr (source, known) ↦ elim (Outcome-cases (interfaces_of texts ports)) [
      | inl (failure, failed) ↦ ground arith
      | inr (rest, made) ↦ let ih = ports_of_lem ports (ground arith) rest made in ground arith
    ]
  ]

  -- A machine as the driver reports it.
  abbrev pub reported_machine : Machine → Machine
  reported_machine machine = record machine {
    machine_type = vm;
    node = none;
    boot = reported_boot machine.boot;
    project_id = texts.service_project;
    status = MachineStatus.active;
  }

-- What is documented of the calls that define and start a domain: the domain that is defined is the one
-- that is looked up, also after the other calls.
pub record KeepsDomains {S : Type 0} (lv : Libvirt S) : Type 0 where
  pub defined :
      (domain : Domain) (s t : S) → lv.define domain s ≡ ok t → lv.lookup domain.uuid t ≡ ok domain
  pub started : (uuid : ℕ) (s t : S) → lv.start uuid s ≡ ok t → lv.lookup uuid t ≡ lv.lookup uuid s
  pub autostarted :
      (uuid : ℕ) (s t : S) → lv.set_autostart uuid s ≡ ok t → lv.lookup uuid t ≡ lv.lookup uuid s

module _ {S : Type 0} (texts : Texts) (spec : Spec) (lv : Libvirt S) where
  create_domain_lem :
      (keeps : KeepsDomains lv) (domain : Domain) (s t : S)
      (h : create_domain texts spec lv domain s ≡ ok t)
      → lv.lookup domain.uuid t ≡ ok domain
  unfolding create_domain
  create_domain_lem keeps domain s t h = elim (Outcome-cases (lv.define domain s)) [
    | inl (failure, failed) ↦ ground arith
    | inr (t1, defines) ↦ elim (Outcome-cases (lv.start domain.uuid t1)) [
      | inl (failure, failed) ↦ ground arith
      | inr (t2, starts) ↦ elim (Outcome-cases (lv.set_autostart domain.uuid t2)) [
        | inl (failure, failed) ↦ ground arith
        | inr (t3, autostarts) ↦
            let first = keeps.defined domain s t1 defines in
            let second = keeps.started domain.uuid t1 t2 starts in
            let third = keeps.autostarted domain.uuid t2 t3 autostarts in ground arith
      ]
    ]
  ]

  domain2machine_lem :
      (knows : Knows texts spec) (machine : Machine) (interfaces : List Interface)
      (disks : List Disk) (ports : List PortInfo)
      (short : length (take 8 (texts.show_uuid machine.uuid)) ≡ 8)
      (sound : ports_of interfaces ≡ ok ports)
      → domain2machine texts spec (domain_of texts spec lv machine interfaces disks)
        ≡ ok (reported_machine texts spec machine, ports)
  unfolding domain2machine domain_of
  domain2machine_lem knows machine interfaces disks ports short sound =
      let name = domain2machine_name_lem texts spec machine short in
      let boot = boot_of_lem texts spec knows machine.boot in ground arith

  -- A machine that is created is reported with its identifier, name, cores, memory and image, and its
  -- ports with their addresses and sources, when the ports are complete and an identifier is written
  -- with eight characters at least; of a disk to boot from it is only reported that it is one.
  pub get_machine-create_machine :
      (keeps : KeepsDomains lv) (knows : Knows texts spec) (machine machine' : Machine)
      (volumes : List Volume) (ports : List PortInfo) (legacy : Bool) (s s' : S)
      (short : length (take 8 (texts.show_uuid machine.uuid)) ≡ 8)
      (complete : all (is_complete texts spec) ports ≡ true)
      (h : create_machine texts spec lv machine volumes ports legacy s ≡ ok (machine', s'))
      → get_machine texts spec lv machine.uuid s'
        ≡ ok (reported_machine texts spec machine, map (reported_port texts spec) ports)
  unfolding get_machine create_machine
  get_machine-create_machine keeps knows machine machine' volumes ports legacy s s' short complete
        h =
      elim (Outcome-cases (interfaces_of texts ports)) [
        | inl (failure, failed) ↦ ground arith
        | inr (interfaces, made) ↦ elim (Outcome-cases (called (lv.storage_pool s))) [
          | inl (failure, failed) ↦ ground arith
          | inr (pool, known) ↦ elim (Outcome-cases (type_of pool)) [
            | inl (failure, failed) ↦ ground arith
            | inr (kind, typed) ↦
                let disks =
                  disks_of (disk_path texts spec lv pool kind legacy machine.uuid) 0 volumes in
                let domain = domain_of texts spec lv machine interfaces disks in
                elim (Outcome-cases (create_domain texts spec lv domain s)) [
                  | inl (failure, failed) ↦ ground arith
                  | inr (t, created) ↦
                      let stored = create_domain_lem keeps domain s t created in
                      let sound = ports_of_lem texts spec ports complete interfaces made in
                      let reported =
                        domain2machine_lem knows machine interfaces disks
                          (map (reported_port texts spec) ports) short sound in
                      ground arith
                ]
          ]
        ]
      ]
