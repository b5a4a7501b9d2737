-- ===== src/Compute/Agent/Volumes/Space.antt =====
-- What the methods of `MetaVolume` leave of the pool's space, and what an update reports.
use genesis_core.Common.{
  ℕ, ◌-◌, ◌==◌, ◌≡◌, refl, ◌&&◌, ◌||◌, not, Bool, true, List, [], ◌∷◌, arith, leb, inl, inr,
  Bool-cases, Option-cases,
}
use genesis_core.Common.Dict
use genesis_core.Common.Dict.{nat_key}
use genesis_core.Common.Outcome.{ok, Outcome-cases}
use genesis_core.Compute.Model.{StoragePool, VolumeStatus, allocate_capacity}
use genesis_core.Compute.Builders.Volumes.{has_enough_space_in_pool, on_first}
use genesis_core.Compute.Agent.Model.{Volume, Driver, Pool}
use genesis_core.Compute.Agent.Volumes.{
  allocate, actualize, attach_volume, attach_if_needed, attach_to_machine, actualize_attachment,
  dump_to_dp, from_dp_volume, is_root_volume, has_machine, put_volume, resize_if_needed, resized,
  same_machine, update_on_dp,
}

-- What is provisioned of the first storage pool is within its capacity.
abbrev pub within : List StoragePool → Bool
within [] = true
within (storage ∷ _) = leb storage.capacity_provisioned storage.capacity

allocate_nothing :
    (n : ℕ) (pool : Pool) → (allocate (n - n) pool).storage_pools ≡ pool.storage_pools
unfolding allocate allocate_capacity
allocate_nothing n pool = on_nothing n pool.storage_pools
  where
    on_nothing :
        (n : ℕ) (storages : List StoragePool)
        → on_first (allocate_capacity (n - n)) storages ≡ storages
    on_nothing n [] = refl
    on_nothing n (storage ∷ storages) = ground arith

allocate-within :
    (size : ℕ) (pool : Pool)
    → has_enough_space_in_pool pool.storage_pools size 0 ≡ true
    → within (allocate size pool).storage_pools ≡ true
unfolding allocate
allocate-within size pool h = on_within size pool.storage_pools h
  where
    on_within :
        (size : ℕ) (storages : List StoragePool)
        → has_enough_space_in_pool storages size 0 ≡ true
        → within (on_first (allocate_capacity size) storages) ≡ true
    on_within size [] h = refl
    on_within size (storage ∷ storages) h =
        unfold has_enough_space_in_pool allocate_capacity in ground arith

module _ {S : Type 0} (driver : Driver S) where
  resized_storage :
      (self dp dp' : Volume) (pool pool' : Pool) (s s' : S)
      (h : resize_if_needed driver self dp pool s ≡ ok (dp', pool', s'))
      → (pool'.storage_pools ≡ pool.storage_pools) × (dp'.machine ≡ dp.machine)
  resized_storage self dp dp' pool pool' s s' h = elim (Bool-cases (self.size == dp.size)) [
    | inl same ↦ (ground arith, ground arith)
    | inr differs ↦
        let grown = record dp { size = self.size } in
        let nothing = allocate_nothing self.size (put_volume grown pool) in
        elim (Outcome-cases (driver.resize_volume grown s)) [
          | inl (failure, failed) ↦ unfold resized in ground arith
          | inr (t, done) ↦ unfold resized in ground arith
        ]
  ]

  attached_storage :
      (self dp : Volume) (pool pool' : Pool) (s s' : S)
      (h : attach_if_needed driver self dp pool s ≡ ok (pool', s'))
      → pool'.storage_pools ≡ pool.storage_pools
  attached_storage self dp pool pool' s s' h =
      elim (Bool-cases (same_machine self.machine dp.machine)) [
        | inl same ↦ ground arith
        | inr differs ↦ elim (Outcome-cases (actualize_attachment driver self dp s)) [
          | inl (failure, failed) ↦ ground arith
          | inr (moved, done) ↦ ground arith
        ]
      ]

  pub actualize_lem :
      (self self' dp : Volume) (pool pool' : Pool) (s s' : S)
      (h : actualize driver self dp pool s ≡ ok (self', pool', s'))
      → (pool'.storage_pools ≡ pool.storage_pools) × (self'.machine ≡ dp.machine)
  unfolding actualize from_dp_volume
  actualize_lem self self' dp pool pool' s s' h =
      elim (Outcome-cases (resize_if_needed driver self dp pool s)) [
        | inl (failure, failed) ↦ ground arith
        | inr (r, resizes) ↦
            let (same, _) = resized_storage self dp r.0 pool r.1 s r.2 resizes in
            elim (Outcome-cases (attach_if_needed driver self r.0 r.1 r.2)) [
              | inl (failure, failed) ↦ ground arith
              | inr (a, attaches) ↦
                  let kept = attached_storage self r.0 r.1 a.0 r.2 a.1 attaches in
                  elim (Outcome-cases (driver.get_volume self.uuid a.1)) [
                    | inl (failure, failed) ↦ ground arith
                    | inr (now, gets) ↦ (ground arith, ground arith)
                  ]
            ]
      ]

  abbrev pub has_space : Volume → Volume → Pool → Bool
  has_space self dp pool =
      self.size == dp.size || has_enough_space_in_pool pool.storage_pools self.size dp.size

  -- An update of a volume that returns leaves the storage pools as they were: also the growth of a
  -- volume takes nothing of the space that is left for the next one.
  pub update_on_dp_storage :
      (self self' : Volume) (pool pool' : Pool) (s s' : S)
      (h : update_on_dp driver self pool s ≡ ok (self', pool', s'))
      → pool'.storage_pools ≡ pool.storage_pools
  unfolding update_on_dp
  update_on_dp_storage self self' pool pool' s s' h =
      elim (Option-cases (Dict.get self.uuid pool.volumes)) [
        | inl unknown ↦ ground arith
        | inr (dp, known) ↦
            elim (Bool-cases (is_root_volume self && not (has_machine self.machine pool))) [
              | inl waits ↦ ground arith
              | inr goes ↦ elim (Bool-cases (has_space self dp pool)) [
                | inl fits ↦
                    let h' : actualize driver self dp pool s ≡ ok (self', pool', s') =
                      ground arith in
                    (actualize_lem self self' dp pool pool' s s' h').0
                | inr full ↦ ground arith
              ]
            ]
      ]

  attach_to_machine_pool :
      (self dp self' : Volume) (pool pool' : Pool) (s s' : S)
      (h : attach_to_machine driver self dp pool s ≡ ok (self', pool', s'))
      → pool' ≡ pool
  attach_to_machine_pool self dp self' pool pool' s s' h =
      elim (Outcome-cases (attach_volume driver dp s)) [
        | inl (failure, failed) ↦ ground arith
        | inr (t, done) ↦ ground arith
      ]

  -- A volume that is written to the data plane keeps what is provisioned within the capacity.
  pub dump_to_dp-within :
      (self self' : Volume) (pool pool' : Pool) (s s' : S)
      (h : dump_to_dp driver self pool s ≡ ok (self', pool', s'))
      (fits : within pool.storage_pools ≡ true)
      → within pool'.storage_pools ≡ true
  unfolding dump_to_dp
  dump_to_dp-within self self' pool pool' s s' h fits =
      elim (Option-cases (Dict.get self.uuid pool.volumes)) [
        | inr (dp, known) ↦
            let same =
              attach_to_machine_pool (from_dp_volume self dp) dp self' pool pool' s s'
                (ground arith) in
            ground arith
        | inl unknown ↦
            elim (Bool-cases (has_enough_space_in_pool pool.storage_pools self.size 0)) [
              | inr full ↦ ground arith
              | inl space ↦
                  elim (Outcome-cases
                    (driver.create_volume (record self { status = VolumeStatus.new }) s)) [
                      | inl (failure, failed) ↦ ground arith
                      | inr (created, done) ↦
                          let same =
                            attach_to_machine_pool (from_dp_volume self created.0) created.0 self'
                              (allocate self.size pool) pool' created.1 s' (ground arith) in
                          let kept = allocate-within self.size pool space in ground arith
                    ]
            ]
      ]
