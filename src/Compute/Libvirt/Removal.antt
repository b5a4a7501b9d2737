-- ===== src/Compute/Libvirt/Removal.antt =====
-- What is left of the volumes when a machine or a volume is deleted.
use genesis_core.Common.{
  ℕ, zero, suc, ◌+◌, ◌==◌, ◌≤◌, ◌≡◌, refl, ◌&&◌, not, Bool, true, false, none, some, List, [], ◌∷◌,
  arith, all, any, map, select, inl, inr, Bool-cases, Option-cases,
}
use genesis_core.Common.Outcome.{ok, Outcome-cases}
use genesis_core.Common.Text.{Text}
use genesis_core.Compute.Agent.Model.{Volume, Machine}
use genesis_core.Compute.Agent.Machines.{sorted_volumes}
use genesis_core.Compute.Libvirt.{delete_machine, destroyed}
use genesis_core.Compute.Libvirt.Model.{Spec, Libvirt, Domain, Disk, VirVolume, Texts, called}
use genesis_core.Compute.Libvirt.Volumes.{
  delete_tries, delete_volume, max_iters, vir_volume_name, wiped,
}
use genesis_core.Compute.Libvirt.Listing.{
  Attachment, at_path, attach_at, attach_disks, attach_domains, is_disk, is_of, list_volumes,
  parsed, vir_volume2machine_volume, volume_attachments,
}

abbrev pub is_listed : ℕ → List Domain → Bool
is_listed machine = any (λ domain. domain.uuid == machine)

abbrev at_machine : ℕ → Attachment → Bool
at_machine machine (volume, none) = false
at_machine machine (volume, some (domain, idx)) = domain == machine

abbrev free_of : ℕ → List Attachment → Bool
free_of machine = all (λ a. not (at_machine machine a))

module _ (machine : ℕ) where
  attach_at_free :
      (path : Text) (domain idx : ℕ) (result : List Attachment)
      (other : (domain == machine) ≡ false) (free : free_of machine result ≡ true)
      → free_of machine (attach_at path (domain, idx) result) ≡ true
  attach_at_free path domain idx [] other free = refl
  attach_at_free path domain idx ((v, place) ∷ rest) other free =
      let ih = attach_at_free path domain idx rest other (ground arith) in
      elim (Bool-cases (at_path path (v, place))) [
        | inl at ↦ ground arith
        | inr away ↦ ground arith
      ]

  attach_disks_free :
      (domain idx : ℕ) (disks : List Disk) (result : List Attachment)
      (other : (domain == machine) ≡ false) (free : free_of machine result ≡ true)
      → free_of machine (attach_disks domain idx disks result) ≡ true
  unfolding attach_disks
  attach_disks_free domain idx [] result other free = free
  attach_disks_free domain idx (disk ∷ disks) result other free = elim (Option-cases disk.path) [
    | inl unknown ↦
        let skipped = attach_disks_free domain idx disks result other free in ground arith
    | inr (path, known) ↦
        let skipped = attach_disks_free domain idx disks result other free in
        let taken =
          attach_disks_free domain (idx + 1) disks (attach_at path (domain, idx) result) other
            (attach_at_free path domain idx result other free) in
        elim (Bool-cases (is_disk disk && any (at_path path) result)) [
          | inl found ↦ ground arith
          | inr missing ↦ ground arith
        ]
  ]

  attach_domains_free :
      (domains : List Domain) (result : List Attachment) (gone : is_listed machine domains ≡ false)
      (free : free_of machine result ≡ true)
      → free_of machine (attach_domains domains result) ≡ true
  unfolding attach_domains
  attach_domains_free [] result gone free = free
  attach_domains_free (domain ∷ domains) result gone free =
      attach_domains_free domains (attach_disks domain.uuid 0 domain.disks result) (ground arith)
        (attach_disks_free domain.uuid 0 domain.disks result (ground arith) free)

  unattached_free :
      (volumes : List VirVolume) → free_of machine (map (λ v. (v, none)) volumes) ≡ true
  unattached_free [] = refl
  unattached_free (v ∷ volumes) = unattached_free volumes

  parsed_free :
      (texts : Texts) (result : List Attachment) (free : free_of machine result ≡ true)
      → select (is_of machine) (parsed texts result) ≡ []
  unfolding parsed vir_volume2machine_volume
  parsed_free texts [] free = refl
  parsed_free texts ((v, none) ∷ rest) free =
      let ih = parsed_free texts rest (ground arith) in
      elim (Option-cases (vir_volume2machine_volume texts v none none)) [
        | inl unknown ↦ ground arith
        | inr (volume, known) ↦ ground arith
      ]
  parsed_free texts ((v, some (domain, idx)) ∷ rest) free =
      let ih = parsed_free texts rest (ground arith) in
      elim (Option-cases (vir_volume2machine_volume texts v (some domain) (some idx))) [
        | inl unknown ↦ ground arith
        | inr (volume, known) ↦ ground arith
      ]

module _ {S : Type 0} (texts : Texts) (spec : Spec) (lv : Libvirt S) where
  list_volumes_free :
      (machine : ℕ) (s : S) (volumes : List Volume)
      (gone : is_listed machine (lv.domains s) ≡ false)
      (h : list_volumes texts lv (some machine) s ≡ ok volumes)
      → volumes ≡ []
  unfolding list_volumes volume_attachments sorted_volumes
  list_volumes_free machine s volumes gone h =
      let none_left = parsed_free machine texts (volume_attachments (lv.domains s) (lv.volumes s)) (
        attach_domains_free machine (lv.domains s) (map (λ v. (v, none)) (lv.volumes s)) gone
          (unattached_free machine (lv.volumes s))) in
      elim (Outcome-cases (called (lv.storage_pool s))) [
        | inl (failure, failed) ↦ ground arith
        | inr (pool, known) ↦ ground arith
      ]

  -- A machine that is deleted with its volumes leaves what a deletion without them leaves, all of its
  -- volumes, when its domain is no longer listed once it is undefined: the volumes are looked for
  -- after that.
  pub delete_machine_volumes :
      (machine : Machine) (s s' : S)
      (undefines : (t : S)
        → lv.undefine machine.uuid (destroyed texts spec lv machine.uuid s) ≡ ok t
        → is_listed machine.uuid (lv.domains t) ≡ false)
      (h : delete_machine texts spec lv machine true s ≡ ok s')
      → delete_machine texts spec lv machine false s ≡ ok s'
  unfolding delete_machine
  delete_machine_volumes machine s s' undefines h =
      elim (Outcome-cases (lv.lookup machine.uuid s)) [
        | inl (failure, failed) ↦ ground arith
        | inr (domain, known) ↦
            elim (Outcome-cases
              (lv.undefine machine.uuid (destroyed texts spec lv machine.uuid s))) [
                | inl (failure, failed) ↦ ground arith
                | inr (t, undefined) ↦
                    elim (Outcome-cases (list_volumes texts lv (some machine.uuid) t)) [
                      | inl (failure, failed) ↦ ground arith
                      | inr (volumes, listed) ↦
                          let nothing =
                            list_volumes_free machine.uuid t volumes (undefines t undefined)
                              listed in
                          ground arith
                    ]
              ]
      ]

module _ {S : Type 0} (lv : Libvirt S) where
  delete_tries_lem :
      (left start i : ℕ) (name : Text) (s t : S) (least : start ≤ i) (most : i ≤ start + left)
      (done : lv.delete_volume i name s ≡ ok t)
      → (t' : S) × (delete_tries lv left start name s ≡ ok t')
  unfolding delete_tries
  delete_tries_lem zero start i name s t least most done =
      let same : i ≡ start = omega arith in (t, ground arith)
  delete_tries_lem (suc left) start i name s t least most done =
      elim (Outcome-cases (lv.delete_volume start name s)) [
        | inr (t', first) ↦ (t', ground arith)
        | inl (failure, failed) ↦ elim (Bool-cases (i == start)) [
          | inl same ↦ ground arith
          | inr later ↦
              let (t', rest) =
                delete_tries_lem left (start + 1) i name s t (ground arith) (ground arith) done in
              (t', ground arith)
        ]
      ]

  -- The deletion of a volume that is known and can be wiped succeeds when one of its 21 tries does.
  pub delete_volume_tries :
      (volume : Volume) (v : VirVolume) (name : Text) (i : ℕ) (s s' t : S)
      (named : vir_volume_name lv volume.name s ≡ ok name) (known : lv.lookup_volume name s ≡ ok v)
      (wipes : wiped lv name s ≡ ok s') (most : i ≤ 20) (done : lv.delete_volume i name s' ≡ ok t)
      → (t' : S) × (delete_volume lv volume s ≡ ok t')
  unfolding delete_volume
  delete_volume_tries volume v name i s s' t named known wipes most done =
      let (t', tried) =
        delete_tries_lem (max_iters lv) 0 i name s' t (omega arith) (omega arith) done in
      (t', ground arith)
