-- ===== src/Compute/Libvirt/Model.antt =====
-- What `LibvirtPoolDriver` of exordos_core/compute/pool/drivers/libvirt.py reads and calls: the
-- hypervisor over an unknown state, a domain as the record of the elements of its document that the
-- code sets and reads, and the names of volumes and devices.
use Prim.Native.Nat.{◌/◌}
use genesis_core.Common.{
  ℕ, zero, suc, ◌+◌, ◌*◌, ◌==◌, ◌&&◌, ◌||◌, Bool, true, false, Option, none, some, List, [], ◌∷◌,
  ◌++◌, if◌then◌else◌,
}
use genesis_core.Common.Outcome.{Outcome, ok, raised}
use genesis_core.Common.Text.{Text, codes, text_beq}
use genesis_core.Compute.Builders.Machines.Model.{Boot}
use genesis_core.Compute.Agent.Model.{DriverError, libvirt_error, value_error}

-- `MAX_VOLUME_INDEX`
abbrev pub max_volume_index : ℕ
max_volume_index = 4096

-- `size << 30`, and back.
unfoldable pub to_bytes : ℕ → ℕ
to_bytes size = size * 1073741824

unfoldable pub to_gigabytes : ℕ → ℕ
to_gigabytes bytes = bytes / 1073741824

pub record Spec : Type 0 where
  pub machine_prefix : Option Text

-- An interface of a domain: the address, and the source for the network type of the pool.
pub record Interface : Type 0 where
  pub mac : Text
  pub source : Text

-- The path is `source.get("file") or source.get("dev")` of a disk that has a source.
pub record Disk : Type 0 where
  pub device : Text
  pub path : Option Text
  pub target : Text

pub record Domain : Type 0 where
  pub uuid : ℕ
  pub name : Text
  pub cores : ℕ
  pub ram : ℕ
  pub image : Option Text
  pub boots : List Text
  pub interfaces : List Interface
  pub disks : List Disk

pub record VirVolume : Type 0 where
  pub name : Text
  pub path : Text
  pub size : ℕ

-- The codes of the hypervisor's error that the code tells apart.
pub data LibvirtError : Type 0 where
  no_domain no_storage_vol vol_exist operation_invalid no_support other_error : LibvirtError

pub data StoragePoolType : Type 0 where
  dir zfs : StoragePoolType

-- The type is none where the document names one that the code does not know.
pub record StoragePoolInfo : Type 0 where
  pub pool_type : Option StoragePoolType
  pub path : Text
  pub active : Bool

-- The calls of the hypervisor; `delete_volume` is given the number of the attempt.
pub record Libvirt (S : Type 0) : Type 0 where
  pub storage_pool : S → Outcome LibvirtError StoragePoolInfo
  pub domains : S → List Domain
  pub volumes : S → List VirVolume
  pub lookup : ℕ → S → Outcome LibvirtError Domain
  pub lookup_volume : Text → S → Outcome LibvirtError VirVolume
  pub define : Domain → S → Outcome LibvirtError S
  pub start : ℕ → S → Outcome LibvirtError S
  pub set_autostart : ℕ → S → Outcome LibvirtError S
  pub is_active : ℕ → S → Outcome LibvirtError Bool
  pub destroy : ℕ → S → Outcome LibvirtError S
  pub shutdown : ℕ → S → Outcome LibvirtError S
  pub undefine : ℕ → S → Outcome LibvirtError S
  pub attach_disk : ℕ → Disk → S → Outcome LibvirtError S
  pub detach_disk : ℕ → Disk → S → Outcome LibvirtError S
  pub attach_interface : ℕ → Interface → S → Outcome LibvirtError S
  pub detach_interface : ℕ → Interface → S → Outcome LibvirtError S
  pub block_resize : ℕ → Text → ℕ → S → Outcome LibvirtError S
  pub create_volume : Text → ℕ → S → Outcome LibvirtError S
  pub refresh : S → Outcome LibvirtError S
  pub wipe : Text → S → Outcome LibvirtError S
  pub delete_volume : ℕ → Text → S → Outcome LibvirtError S
  pub resize_volume : Text → ℕ → S → Outcome LibvirtError S

-- What the code takes from `uuid`, `ElementTree`, the constants and `Port.generate_mac`.
pub record Texts : Type 0 where
  pub show_uuid : ℕ → Text
  pub parse_uuid : Text → Option ℕ
  pub show_disk : Disk → Text
  pub boot_alternative : Text → Boot
  pub generated_mac : Text
  pub service_project : ℕ

unfoldable pub take : ℕ → Text → Text
take zero t = []
take (suc n) [] = []
take (suc n) (c ∷ t) = c ∷ take n t

unfoldable pub drop : ℕ → Text → Text
drop zero t = t
drop (suc n) [] = []
drop (suc n) (c ∷ t) = drop n t

-- `t.startswith(prefix)`
unfoldable pub starts_with : Text → Text → Bool
starts_with [] t = true
starts_with (p ∷ prefix) [] = false
starts_with (p ∷ prefix) (c ∷ t) = p == c && starts_with prefix t

-- `part in t`
unfoldable pub is_part : Text → Text → Bool
unfolding starts_with
is_part part [] = starts_with part []
is_part part (c ∷ t) = starts_with part (c ∷ t) || is_part part t

-- `t.endswith(suffix)`
unfoldable pub ends_with : Text → Text → Bool
ends_with suffix [] = text_beq suffix []
ends_with suffix (c ∷ t) = text_beq suffix (c ∷ t) || ends_with suffix t

abbrev pub is_blank : Text → Bool
is_blank [] = true
is_blank (c ∷ t) = false

unfoldable pub volume_extension : StoragePoolType → Text
volume_extension zfs = []
volume_extension dir = codes ".qcow2"

unfoldable pub volume_name : StoragePoolType → Text → Text
unfolding volume_extension ends_with
volume_name kind name =
    if ends_with (volume_extension kind) name then name else name ++ volume_extension kind

unfoldable pub legacy_volume_name : StoragePoolType → Text → Text → Text
unfolding volume_extension
legacy_volume_name kind name machine = name ++ codes "_" ++ machine ++ volume_extension kind

-- `"vd" + chr(ord("a") + i)`
unfoldable pub device_name : ℕ → Text
device_name i = b'v' ∷ b'd' ∷ (b'a' + i) ∷ []

-- A failure of the hypervisor that the code does not catch.
abbrev pub called : {A : Type 0} → Outcome LibvirtError A → Outcome DriverError A
called (raised failure) = raised libvirt_error
called (ok a) = ok a

-- `StoragePoolType(pool_xml.get("type"))`
abbrev pub type_of : StoragePoolInfo → Outcome DriverError StoragePoolType
type_of pool = elim pool.pool_type [ none ↦ raised value_error | some kind ↦ ok kind ]
