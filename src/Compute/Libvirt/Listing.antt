-- ===== src/Compute/Libvirt/Listing.antt =====
-- The volumes that `LibvirtPoolDriver` of exordos_core/compute/pool/drivers/libvirt.py lists, with the
-- machines they are attached to. Of the volumes of a storage pool no two have the same path.
use genesis_core.Common.{
  ℕ, ◌+◌, ◌==◌, ◌&&◌, not, Bool, true, false, Option, none, some, List, [], ◌∷◌, any, select, map,
  if◌then◌else◌,
}
use genesis_core.Common.Outcome.{Outcome, ok, raised, ◌>>=◌}
use genesis_core.Common.Text.{Text, codes, text_beq, split, last_from}
use genesis_core.Compute.Model.{VolumeStatus}
use genesis_core.Compute.Agent.Model.{
  Volume, DriverError, volume_not_found, libvirt_error, value_error,
}
use genesis_core.Compute.Agent.Machines.{sorted_volumes}
use genesis_core.Compute.Libvirt.Model.{
  Libvirt, LibvirtError, no_storage_vol, Disk, Domain, VirVolume, Texts, called, type_of,
  volume_name, is_blank, is_part, starts_with, take, to_gigabytes, max_volume_index,
}

abbrev pub or_last : Option ℕ → ℕ
or_last none = max_volume_index
or_last (some index) = index

-- None where the name does not begin with a UUID.
unfoldable pub vir_volume2machine_volume : Texts → VirVolume → Option ℕ → Option ℕ → Option Volume
unfolding take to_gigabytes
vir_volume2machine_volume texts volume machine index =
    let name = take 36 volume.name in
    elim (texts.parse_uuid name) [
      | none ↦ none
      | some uuid ↦ some (record {
        uuid = uuid;
        name = name;
        image = none;
        size = to_gigabytes volume.size;
        boot = true;
        label = none;
        device_type = [];
        index = or_last index;
        machine = machine;
        project_id = texts.service_project;
        status = VolumeStatus.active;
      })
    ]

-- A volume with the domain it is attached to and its place there.
abbrev pub Attachment : Type 0
Attachment = VirVolume × Option (ℕ × ℕ)

abbrev pub at_path : Text → Attachment → Bool
at_path path a = text_beq a.0.path path

abbrev pub attach_at : Text → ℕ × ℕ → List Attachment → List Attachment
attach_at path place [] = []
attach_at path place (a ∷ rest) =
    let rest' = attach_at path place rest in
    (if at_path path a then (a.0, some place) else a) ∷ rest'

abbrev pub is_disk : Disk → Bool
is_disk disk = text_beq disk.device (codes "disk")

unfoldable pub attach_disks : ℕ → ℕ → List Disk → List Attachment → List Attachment
attach_disks domain idx [] result = result
attach_disks domain idx (disk ∷ disks) result =
    let skipped = attach_disks domain idx disks result in
    elim disk.path [
      | none ↦ skipped
      | some path ↦
          let found = attach_disks domain (idx + 1) disks (attach_at path (domain, idx) result) in
          if is_disk disk && any (at_path path) result then found else skipped
    ]

unfoldable pub attach_domains : List Domain → List Attachment → List Attachment
unfolding attach_disks
attach_domains [] result = result
attach_domains (domain ∷ domains) result =
    attach_domains domains (attach_disks domain.uuid 0 domain.disks result)

unfoldable pub volume_attachments : List Domain → List VirVolume → List Attachment
unfolding attach_domains
volume_attachments domains volumes = attach_domains domains (map (λ v. (v, none)) volumes)

abbrev pub machine_of : Option (ℕ × ℕ) → Option ℕ
machine_of none = none
machine_of (some (domain, idx)) = some domain

abbrev pub index_of : Option (ℕ × ℕ) → Option ℕ
index_of none = none
index_of (some (domain, idx)) = some idx

-- A volume that cannot be parsed is left out.
unfoldable pub parsed : Texts → List Attachment → List Volume
unfolding vir_volume2machine_volume
parsed texts [] = []
parsed texts ((volume, place) ∷ rest) =
    let volumes = parsed texts rest in
    elim (vir_volume2machine_volume texts volume (machine_of place) (index_of place)) [
      | none ↦ volumes
      | some v ↦ v ∷ volumes
    ]

abbrev pub is_of : ℕ → Volume → Bool
is_of machine volume = elim volume.machine [ none ↦ false | some m ↦ m == machine ]

-- `_find_attached_volume_element`
unfoldable pub find_attached : Text → List Disk → Option Disk
unfolding is_part
find_attached name [] = none
find_attached name (disk ∷ disks) =
    let rest = find_attached name disks in
    elim disk.path [
      | none ↦ rest
      | some path ↦ if not (is_blank path) && is_part name path then some disk else rest
    ]

-- `<volume_uuid>_<machine_uuid>[suffix]?`
abbrev pub is_uuid : Texts → Text → Bool
is_uuid texts t = elim (texts.parse_uuid t) [ none ↦ false | some _ ↦ true ]

unfoldable pub are_legacy : Texts → Text → List Text → Bool
unfolding take
are_legacy texts vol (machine ∷ []) = is_uuid texts vol && is_uuid texts (take 36 machine)
are_legacy texts vol _ = false

unfoldable pub is_legacy_name : Texts → Text → Bool
unfolding split last_from are_legacy
is_legacy_name texts path =
    let (folder, parts) = split b'/' path in
    let (vol, machine) = split b'_' (last_from folder parts) in are_legacy texts vol machine

-- The first disk that has a path decides.
unfoldable pub is_legacy_domain : Texts → List Disk → Bool
unfolding is_legacy_name
is_legacy_domain texts [] = false
is_legacy_domain texts (disk ∷ disks) =
    let rest = is_legacy_domain texts disks in
    elim disk.path [
      | none ↦ rest
      | some path ↦ if is_disk disk then is_legacy_name texts path else rest
    ]

module _ {S : Type 0} (texts : Texts) (lv : Libvirt S) where
  unfoldable pub list_volumes : Option ℕ → S → Outcome DriverError (List Volume)
  unfolding volume_attachments parsed
  list_volumes machine s = called (lv.storage_pool s) >>= λ pool.
      let volumes = parsed texts (volume_attachments (lv.domains s) (lv.volumes s)) in
      elim machine [
        | none ↦ ok volumes
        | some uuid ↦ ok (sorted_volumes (select (is_of uuid) volumes))
      ]

  -- `UUID(volume_name)` raises where the name does not begin with one.
  abbrev pub reported : VirVolume → Outcome DriverError Volume
  reported volume = elim (vir_volume2machine_volume texts volume none none) [
    | none ↦ raised value_error
    | some v ↦ ok v
  ]

  -- The first volume whose name starts with the identifier.
  abbrev pub legacy_volume : ℕ → List VirVolume → Outcome DriverError Volume
  legacy_volume uuid [] = raised volume_not_found
  legacy_volume uuid (v ∷ volumes) =
      let rest = legacy_volume uuid volumes in
      if starts_with (texts.show_uuid uuid) v.name then reported v else rest

  abbrev pub found_or_legacy :
      ℕ → List VirVolume → Outcome LibvirtError VirVolume → Outcome DriverError Volume
  found_or_legacy uuid volumes (ok volume) = reported volume
  found_or_legacy uuid volumes (raised no_storage_vol) = legacy_volume uuid volumes
  found_or_legacy uuid volumes (raised _) = raised libvirt_error

  unfoldable pub get_volume : ℕ → S → Outcome DriverError Volume
  unfolding starts_with vir_volume2machine_volume volume_name
  get_volume uuid s = do
    pool ← called (lv.storage_pool s)
    kind ← type_of pool
    found_or_legacy uuid (lv.volumes s)
        (lv.lookup_volume (volume_name kind (texts.show_uuid uuid)) s)
