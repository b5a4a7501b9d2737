-- ===== src/Compute/Scheduler/Volumes/Placement.antt =====
-- What a placement of one node volume does to the pool that was selected for it.
use genesis_core.Common.{
  ℕ, ◌-◌, ◌≤◌, ◌<◌, ◌≡◌, refl, sym, subst, ◌∙◌, ◌⊎◌, inl, inr, ltb, true, false, none, some, List,
  [], ◌∷◌, arith, Member, Member-select, Member-if, select, Bool-cases, Option-cases, if◌then◌else◌,
}
use genesis_core.Common.Outcome.{Outcome, ok, raised, ok_chain}
use genesis_core.Compute.Model.{
  StoragePool, lacks, allocate_capacity, Volume, MachineVolume, MachinePoolBundle,
}
use genesis_core.Compute.Scheduler.Volumes.{
  ScheduleError, allocate_first, set_storage, new_volume, build_machine_volume, fits, closest,
  remove_volume, is_short, reuse_volume, place_from, place_volume_into_pool,
}

module _ (volume : Volume) where
  -- `volumes[0]` of the sorted list is one of the volumes.
  closest-Member :
      (best : MachineVolume) (vs : List MachineVolume) → Member (closest volume best vs) (best ∷ vs)
  unfolding closest
  closest-Member best [] = inl refl
  closest-Member best (v ∷ vs) =
      let nearer = ltb (volume.size - v.size) (volume.size - best.size) in
      Member-if nearer best v (closest volume (if nearer then v else best) vs) vs
        (closest-Member (if nearer then v else best) vs)

  closest-best :
      (best : MachineVolume) (vs : List MachineVolume)
      → volume.size - (closest volume best vs).size ≤ volume.size - best.size
  unfolding closest
  closest-best best [] = omega arith
  closest-best best (v ∷ vs) =
      let nearer = ltb (volume.size - v.size) (volume.size - best.size) in
      ground (
        arith,
        closest-best (if nearer then v else best) vs,
        closest-best v vs,
        closest-best best vs,
      )

  -- No volume of the list is nearer to the wanted size.
  closest-least :
      (best : MachineVolume) (vs : List MachineVolume) (w : MachineVolume)
      → Member w (best ∷ vs)
      → volume.size - (closest volume best vs).size ≤ volume.size - w.size
  unfolding closest
  closest-least best vs w (inl e) = rw (← e) (closest-best best vs)
  closest-least best [] w (inr m) = absurd m
  closest-least best (v ∷ vs) w (inr (inl e)) =
      rw (← e) (ground (arith, closest-best v vs, closest-best best vs))
  closest-least best (v ∷ vs) w (inr (inr m)) =
      closest-least (if ltb (volume.size - v.size) (volume.size - best.size) then v else best) vs w
        (inr m)

-- The volume is made anew, and its whole size is taken from the first storage pool.
pub record Built (volume : Volume) (before : MachinePoolBundle) (v : MachineVolume)
    (after : MachinePoolBundle) : Type 0 where
  pub made : v ≡ new_volume volume
  pub storage : allocate_first volume.size before.pool.storage_pools ≡ ok after.pool.storage_pools
  pub rest : after.volumes ≡ before.volumes
  pub others : after.pool ≡ record before.pool { storage_pools = after.pool.storage_pools }

-- A volume `u` of the pool is used: it has the image and fits, no volume that does so is larger, it
-- leaves the pool, and the first storage pool gives the difference, which it has.
pub record Reused (volume : Volume) (before : MachinePoolBundle) (v : MachineVolume)
    (after : MachinePoolBundle) (u : MachineVolume) : Type 0 where
  pub used : v ≡ record u { node_volume = some volume.uuid }
  pub member : Member u before.volumes
  pub fitting : fits volume u ≡ true
  pub largest :
      (w : MachineVolume)
      → Member w (select (fits volume) before.volumes)
      → volume.size - u.size ≤ volume.size - w.size
  pub storage :
      allocate_first (volume.size - u.size) before.pool.storage_pools ≡ ok after.pool.storage_pools
  pub enough : is_short (volume.size - u.size) before.pool.storage_pools ≡ false
  pub rest : after.volumes ≡ remove_volume u.uuid before.volumes
  pub others : after.pool ≡ record before.pool { storage_pools = after.pool.storage_pools }

Outcomes : Volume → MachinePoolBundle → MachineVolume → MachinePoolBundle → Type 0
Outcomes volume before v after =
    Built volume before v after ⊎ ((u : MachineVolume) × Reused volume before v after u)

module _ (volume : Volume) (bundle : MachinePoolBundle) {v : MachineVolume}
    {after : MachinePoolBundle} where
  build_machine_volume-Built :
      build_machine_volume volume bundle ≡ ok (v, after) → Built volume bundle v after
  unfolding build_machine_volume
  build_machine_volume-Built h =
      let (storage, taken, same) =
        ok_chain (allocate_first volume.size bundle.pool.storage_pools) build {b = (v, after)} h in
      record {
        made = ground arith;
        storage = taken ∙ ground arith;
        rest = ground arith;
        others = ground arith;
      }
    where
      build : List StoragePool → Outcome ScheduleError (MachineVolume × MachinePoolBundle)
      build storage = ok (new_volume volume, set_storage storage bundle)

  reuse_volume-Outcomes :
      (u : MachineVolume)
      → Member u bundle.volumes
      → fits volume u ≡ true
      → ((w : MachineVolume)
          → Member w (select (fits volume) bundle.volumes)
          → volume.size - u.size ≤ volume.size - w.size)
      → reuse_volume volume u bundle ≡ ok (v, after)
      → Outcomes volume bundle v after
  unfolding reuse_volume Outcomes
  reuse_volume-Outcomes u member fitting largest h =
      elim (Bool-cases (is_short (volume.size - u.size) bundle.pool.storage_pools)) [
        | inl short ↦ inl (build_machine_volume-Built (ground (arith, short)))
        | inr enough ↦
            let (storage, taken, same) =
              ok_chain (allocate_first (volume.size - u.size) bundle.pool.storage_pools) build
                {b = (v, after)} (ground (arith, enough)) in
            inr (
              u,
              record {
                used = ground arith;
                member = member;
                fitting = fitting;
                largest = largest;
                storage = taken ∙ ground arith;
                enough = enough;
                rest = ground arith;
                others = ground arith;
              },
            )
      ]
    where
      build : List StoragePool → Outcome ScheduleError (MachineVolume × MachinePoolBundle)
      build storage = ok (
        record u { node_volume = some volume.uuid },
        record (set_storage storage bundle) { volumes = remove_volume u.uuid bundle.volumes },
      )

  place_from-Outcomes :
      (vs : List MachineVolume)
      → vs ≡ select (fits volume) bundle.volumes
      → place_from volume vs bundle ≡ ok (v, after)
      → Outcomes volume bundle v after
  unfolding place_from
  place_from-Outcomes [] e h = unfold Outcomes in inl (build_machine_volume-Built h)
  place_from-Outcomes (w ∷ ws) e h =
      let u : MachineVolume = closest volume w ws in
      let (member, fitting) =
        Member-select (fits volume) u bundle.volumes
          (subst (Member u) e (closest-Member volume w ws)) in
      reuse_volume-Outcomes u member fitting
        (λ x m. closest-least volume w ws x (subst (Member x) (sym e) m)) h

  -- A placement makes the volume anew, or takes the largest free volume of the pool that has its
  -- image and is not larger. Nothing else in the pool changes.
  pub place_volume_into_pool-Outcomes :
      place_volume_into_pool volume bundle ≡ ok (v, after)
      → Built volume bundle v after ⊎ ((u : MachineVolume) × Reused volume bundle v after u)
  unfolding place_volume_into_pool Outcomes
  place_volume_into_pool-Outcomes h = elim (Option-cases volume.image) [
    | inl none_set ↦ inl (build_machine_volume-Built (ground (arith, none_set)))
    | inr (image, set) ↦
        place_from-Outcomes (select (fits volume) bundle.volumes) refl (ground (arith, set))
  ]

module _ (volume : Volume) (bundle : MachinePoolBundle) where
  allocate_first-raised :
      (size : ℕ) (pools : List StoragePool) {e : ScheduleError}
      → allocate_first size pools ≡ raised e
      → pools ≡ []
  unfolding allocate_first
  allocate_first-raised size [] h = refl
  allocate_first-raised size (s ∷ rest) h = cc

  build_machine_volume-raised :
      {e : ScheduleError}
      → build_machine_volume volume bundle ≡ raised e
      → bundle.pool.storage_pools ≡ []
  unfolding build_machine_volume
  build_machine_volume-raised h =
      ground (arith, allocate_first-raised volume.size bundle.pool.storage_pools)

  reuse_volume-raised :
      (u : MachineVolume) {e : ScheduleError}
      → reuse_volume volume u bundle ≡ raised e
      → bundle.pool.storage_pools ≡ []
  unfolding reuse_volume
  reuse_volume-raised u {e} h = ground (
    arith,
    build_machine_volume-raised {e = e},
    allocate_first-raised (volume.size - u.size) bundle.pool.storage_pools,
  )

  place_from-raised :
      (vs : List MachineVolume) {e : ScheduleError}
      → place_from volume vs bundle ≡ raised e
      → bundle.pool.storage_pools ≡ []
  unfolding place_from
  place_from-raised [] h = build_machine_volume-raised h
  place_from-raised (w ∷ ws) h = reuse_volume-raised (closest volume w ws) h

  -- A placement raises only where the pool has no storage pools at all.
  pub place_volume_into_pool-raised :
      {e : ScheduleError}
      → place_volume_into_pool volume bundle ≡ raised e
      → bundle.pool.storage_pools ≡ []
  unfolding place_volume_into_pool
  place_volume_into_pool-raised {e} h = elim (Option-cases volume.image) [
    | inl none_set ↦ build_machine_volume-raised {e = e} (ground (arith, none_set))
    | inr (image, set) ↦
        place_from-raised (select (fits volume) bundle.volumes) {e = e} (ground (arith, set))
  ]

  -- Nothing compares the size of a new volume with the space that is left: a volume without an
  -- image is built in a storage pool that lacks the space for it, whose provisioned space then
  -- passes its capacity.
  pub place_volume_overcommits :
      (s : StoragePool) (rest : List StoragePool)
      → volume.image ≡ none
      → bundle.pool.storage_pools ≡ s ∷ rest
      → lacks s volume.size ≡ true
      → (s' : StoragePool) × (after : MachinePoolBundle) × (place_volume_into_pool volume bundle
          ≡ ok (new_volume volume, after))
        × (after.pool.storage_pools ≡ s' ∷ rest)
        × (s'.capacity < s'.capacity_provisioned)
  unfolding place_volume_into_pool build_machine_volume allocate_first allocate_capacity
  place_volume_overcommits s rest no_image storage short = (
    allocate_capacity volume.size s,
    set_storage (allocate_capacity volume.size s ∷ rest) bundle,
    ground arith,
    ground arith,
    ground arith,
  )
