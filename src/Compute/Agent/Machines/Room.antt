-- ===== src/Compute/Agent/Machines/Room.antt =====
-- The cores and the memory of a pool through the methods of `MetaMachine`.
use genesis_core.Common.{
  ℕ, ◌==◌, ◌≡◌, ◌&&◌, ◌||◌, not, map, Bool, true, List, [], ◌∷◌, arith, inl, inr, Bool-cases,
  Option-cases,
}
use genesis_core.Common.Dict
use genesis_core.Common.Dict.{nat_key}
use genesis_core.Common.Dict.Updates.{is_present}
use genesis_core.Common.Int.{ℤ, pos, negsuc, at_least, minus, plus}
use genesis_core.Common.Outcome.{Outcome, ok, Outcome-cases, ok_chain, ◌>>=◌}
use genesis_core.Compute.Agent.Model.{Volume, Machine, Driver, Pool, AgentError}
use genesis_core.Compute.Agent.Machines.{
  MetaMachine, Progress, goes, ends, and_then, allocate_resources, created, dump_sorted, dump_to_dp,
  enriched, finished, image_differs, is_failed, same_boot, has_enough_resources, new_machine,
  recreated, sorted_volumes, to_dp_volume, update_boot, update_cores, update_image, update_on_dp,
  update_ram,
}

-- What is left of the pool is not negative.
abbrev pub has_room : Pool → Bool
has_room pool = at_least pool.avail_cores 0 && at_least pool.avail_ram 0

minus-at_least : (i : ℤ) (n : ℕ) → at_least i n ≡ true → at_least (minus i n) 0 ≡ true
minus-at_least (pos a) n h = ground arith
minus-at_least (negsuc a) n h = ground arith

module _ {S : Type 0} (driver : Driver S) where
  abbrev room_of : Progress S → Bool
  room_of (goes dp pool s) = has_room pool
  room_of (ends status pool s) = has_room pool

  -- A step of an update that keeps what is left of the pool from falling below zero.
  abbrev Keeps : (Machine → Pool → S → Outcome AgentError (Progress S)) → Type 0
  Keeps step =
      (dp : Machine) (pool : Pool) (s : S) (p : Progress S) (h : step dp pool s ≡ ok p)
      (room : has_room pool ≡ true)
      → room_of p ≡ true

  update_cores-Keeps : (self : MetaMachine) → Keeps (update_cores driver self)
  unfolding update_cores
  update_cores-Keeps self dp pool s p h room = elim (Bool-cases (self.cores == dp.cores)) [
    | inl same ↦ ground arith
    | inr differs ↦ elim (Bool-cases (at_least (plus pool.avail_cores dp.cores) self.cores)) [
      | inr full ↦ ground arith
      | inl fits ↦
          let left = minus-at_least (plus pool.avail_cores dp.cores) self.cores fits in
          elim (Outcome-cases (driver.set_machine_cores (enriched dp self.image) self.cores s)) [
            | inl (failure, failed) ↦ ground arith
            | inr (done, made) ↦ ground arith
          ]
    ]
  ]

  update_ram-Keeps : (self : MetaMachine) → Keeps (update_ram driver self)
  unfolding update_ram
  update_ram-Keeps self dp pool s p h room = elim (Bool-cases (self.ram == dp.ram)) [
    | inl same ↦ ground arith
    | inr differs ↦ elim (Bool-cases (at_least (plus pool.avail_ram dp.ram) self.ram)) [
      | inr full ↦ ground arith
      | inl fits ↦
          let left = minus-at_least (plus pool.avail_ram dp.ram) self.ram fits in
          elim (Outcome-cases (driver.set_machine_ram dp self.ram s)) [
            | inl (failure, failed) ↦ ground arith
            | inr (done, made) ↦ ground arith
          ]
    ]
  ]

  recreated-Keeps : (self : MetaMachine) → Keeps (recreated driver self)
  recreated-Keeps self dp pool s p h room =
      elim (Outcome-cases (driver.recreate_machine dp (self.port_info ∷ []) s)) [
        | inl (failure, failed) ↦ ground arith
        | inr (s', made) ↦ ground arith
      ]

  update_image-Keeps : (self : MetaMachine) → Keeps (update_image driver self)
  unfolding update_image
  update_image-Keeps self dp pool s p h room =
      elim (Bool-cases (image_differs self.image dp.image)) [
        | inl differs ↦
            recreated-Keeps self (record dp { image = self.image; boot = self.boot }) pool s p
              (ground arith) room
        | inr same ↦ ground arith
      ]

  update_boot-Keeps : (self : MetaMachine) → Keeps (update_boot driver self)
  unfolding update_boot
  update_boot-Keeps self dp pool s p h room = elim (Bool-cases (same_boot dp.boot self.boot)) [
    | inl same ↦ ground arith
    | inr differs ↦
        recreated-Keeps self (record dp { boot = self.boot }) pool s p (ground arith) room
  ]

  and_then-Keeps :
      (step : Machine → Pool → S → Outcome AgentError (Progress S)) (keeps : Keeps step)
      (before after : Progress S) (h : and_then driver step before ≡ ok after)
      (room : room_of before ≡ true)
      → room_of after ≡ true
  and_then-Keeps step keeps (goes dp pool s) after h room = keeps dp pool s after h room
  and_then-Keeps step keeps (ends status pool s) after h room = ground arith

  finished_pool :
      (self self' : MetaMachine) (p : Progress S) (pool' : Pool) (s' : S)
      (h : finished driver self p ≡ ok (self', pool', s'))
      → has_room pool' ≡ room_of p
  finished_pool self self' (ends status pool s) pool' s' h = ground arith
  finished_pool self self' (goes dp pool s) pool' s' h =
      elim (Outcome-cases (driver.get_machine self.uuid s)) [
        | inl (failure, failed) ↦ ground arith
        | inr (now, reported) ↦ ground arith
      ]

  abbrev stepped : MetaMachine → Machine → Pool → S → Outcome AgentError (MetaMachine × Pool × S)
  stepped self dp pool s = update_cores driver self dp pool s >>= λ p1.
      and_then driver (update_ram driver self) p1 >>= λ p2.
      and_then driver (update_image driver self) p2 >>= λ p3.
      and_then driver (update_boot driver self) p3 >>= λ p4. finished driver self p4

  stepped_room :
      (self self' : MetaMachine) (dp : Machine) (pool pool' : Pool) (s s' : S)
      (h : stepped self dp pool s ≡ ok (self', pool', s')) (room : has_room pool ≡ true)
      → has_room pool' ≡ true
  stepped_room self self' dp pool pool' s s' h room =
      let (p1, h1, g1) =
        ok_chain (update_cores driver self dp pool s) _ {b = (self', pool', s')} h in
      let (p2, h2, g2) =
        ok_chain (and_then driver (update_ram driver self) p1) _ {b = (self', pool', s')} g1 in
      let (p3, h3, g3) =
        ok_chain (and_then driver (update_image driver self) p2) _ {b = (self', pool', s')} g2 in
      let (p4, h4, g4) =
        ok_chain (and_then driver (update_boot driver self) p3) _ {b = (self', pool', s')} g3 in
      let r1 = update_cores-Keeps self dp pool s p1 h1 room in
      let r2 = and_then-Keeps (update_ram driver self) (update_ram-Keeps self) p1 p2 h2 r1 in
      let r3 = and_then-Keeps (update_image driver self) (update_image-Keeps self) p2 p3 h3 r2 in
      let r4 = and_then-Keeps (update_boot driver self) (update_boot-Keeps self) p3 p4 h4 r3 in
      let same = finished_pool self self' p4 pool' s' g4 in ground arith

  update_room :
      (self self' : MetaMachine) (pool pool' : Pool) (s s' : S)
      (h : update_on_dp driver self pool s ≡ ok (self', pool', s')) (room : has_room pool ≡ true)
      → has_room pool' ≡ true
  unfolding update_on_dp
  update_room self self' pool pool' s s' h room =
      elim (Option-cases (Dict.get self.uuid pool.machines)) [
        | inl unknown ↦ ground arith
        | inr (dp, known) ↦
            let h0 : stepped self dp pool s ≡ ok (self', pool', s') = ground arith in
            stepped_room self self' dp pool pool' s s' h0 room
      ]

  created_room :
      (self self' : MetaMachine) (volumes : List Volume) (pool pool' : Pool) (s s' : S)
      (h : created driver self volumes pool s ≡ ok (self', pool', s'))
      (fits : has_enough_resources pool self.cores self.ram ≡ true)
      → has_room pool' ≡ true
  unfolding has_enough_resources allocate_resources
  created_room self self' volumes pool pool' s s' h fits =
      let cores = minus-at_least pool.avail_cores self.cores (ground arith) in
      let ram = minus-at_least pool.avail_ram self.ram (ground arith) in
      elim (Outcome-cases (
        driver.create_machine (new_machine self) (map to_dp_volume volumes) (self.port_info ∷ [])
          s)) [ inl (failure, failed) ↦ ground arith | inr (made, done) ↦ ground arith ]

  dump_sorted_room :
      (self self' : MetaMachine) (volumes : List Volume) (pool pool' : Pool) (s s' : S)
      (h : dump_sorted driver self volumes pool s ≡ ok (self', pool', s'))
      (room : has_room pool ≡ true)
      → has_room pool' ≡ true
  dump_sorted_room self self' [] pool pool' s s' h room = ground arith
  dump_sorted_room self self' (root ∷ volumes) pool pool' s s' h room =
      elim (Bool-cases (has_enough_resources pool self.cores self.ram)) [
        | inr full ↦ ground arith
        | inl fits ↦ elim (Bool-cases (not (root.index == 0) || is_failed root.status)) [
          | inl broken ↦ ground arith
          | inr sound ↦ created_room self self' (root ∷ volumes) pool pool' s s' (ground arith) fits
        ]
      ]

  dump_room :
      (self self' : MetaMachine) (volumes : List Volume) (pool pool' : Pool) (s s' : S)
      (h : dump_to_dp driver self volumes pool s ≡ ok (self', pool', s'))
      (room : has_room pool ≡ true)
      → has_room pool' ≡ true
  unfolding dump_to_dp
  dump_room self self' volumes pool pool' s s' h room =
      elim (Bool-cases (is_present (Dict.get self.uuid pool.machines))) [
        | inl known ↦ ground arith
        | inr new ↦
            dump_sorted_room self self' (sorted_volumes volumes) pool pool' s s' (ground arith) room
      ]

  pub data Operation : Type 0 where
    dumps : MetaMachine → List Volume → Operation
    updates : MetaMachine → Operation

  abbrev pub run : Operation → Pool → S → Outcome AgentError (MetaMachine × Pool × S)
  run (dumps self volumes) = dump_to_dp driver self volumes
  run (updates self) = update_on_dp driver self

  -- The creation or the update of a machine that returns leaves the cores and the memory that are left
  -- of the pool at zero or above, whatever the driver does, if they were so before.
  pub run-has_room :
      (operation : Operation) (self' : MetaMachine) (pool pool' : Pool) (s s' : S)
      (h : run operation pool s ≡ ok (self', pool', s')) (room : has_room pool ≡ true)
      → has_room pool' ≡ true
  run-has_room (dumps self volumes) self' pool pool' s s' h room =
      dump_room self self' volumes pool pool' s s' h room
  run-has_room (updates self) self' pool pool' s s' h room =
      update_room self self' pool pool' s s' h room
