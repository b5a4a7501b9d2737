-- ===== src/Compute/Builders/Nodes/Disks.antt =====
-- The volumes and the machine of a node after its update.
use genesis_core.Common.{
  ℕ, ◌&&◌, ◌≡◌, refl, not, true, Option, none, some, List, [], ◌∷◌, arith, inl, inr, Option-cases,
  Bool-cases, if◌then◌else◌,
}
use genesis_core.Common.Dict
use genesis_core.Common.Dict.{Dict, nat_key, get-put, get-remove}
use genesis_core.Common.Dict.Updates.{distinct, distinct-put, is_present}
use genesis_core.Compute.Builders.Nodes.{
  Volume, by_uuid, create_missing, delete_extra, update_changed, updated, wanted_update,
  actualize_volumes, volume_differs, actualize_volume,
}

by_uuid-distinct :
    (vs : List Volume) (volumes : Dict ℕ Volume)
    → distinct volumes ≡ true
    → distinct (by_uuid vs volumes) ≡ true
unfolding by_uuid
by_uuid-distinct [] volumes h = h
by_uuid-distinct (v ∷ vs) volumes h =
    by_uuid-distinct vs (Dict.put v.uuid v volumes) (distinct-put v.uuid v volumes h)

abbrev created : Option Volume → Option Volume → Option Volume → Option Volume
created (some v) none row = some v
created _ _ row = row

get-create_missing :
    (k : ℕ) (target actual table : Dict ℕ Volume)
    → distinct target ≡ true
    → Dict.get k (create_missing target actual table)
      ≡ created (Dict.get k target) (Dict.get k actual) (Dict.get k table)
unfolding create_missing Dict.get
get-create_missing k [] actual table once = ground arith
get-create_missing k ((uuid, v) ∷ target) actual table once =
    let ih =
      get-create_missing k target actual
        (if is_present (Dict.get uuid actual) then table else Dict.put uuid v table)
        (ground arith) in
    elim (Option-cases (Dict.get uuid actual)) [
      | inl new ↦ ground (arith, get-put uuid k v table)
      | inr (a, known) ↦ ground arith
    ]

get-delete_extra :
    (k : ℕ) (target actual table : Dict ℕ Volume)
    → Dict.get k (delete_extra target actual table) ≡ (
        if is_present (Dict.get k actual) && not (is_present (Dict.get k target))
        then none
        else Dict.get k table)
unfolding delete_extra Dict.get
get-delete_extra k target [] table = ground arith
get-delete_extra k target ((uuid, v) ∷ actual) table =
    let ih =
      get-delete_extra k target actual
        (if is_present (Dict.get uuid target) then table else Dict.remove uuid table) in
    elim (Bool-cases (is_present (Dict.get uuid target))) [
      | inl kept ↦ ground arith
      | inr extra ↦ ground (arith, get-remove uuid k table)
    ]

abbrev change : Option Volume → Option Volume → Option Volume
change u none = none
change u (some v) = some (updated u v)

get-update_changed :
    (k : ℕ) (target actual table : Dict ℕ Volume)
    → Dict.get k (update_changed target actual table)
      ≡ change (wanted_update (Dict.get k target) (Dict.get k actual)) (Dict.get k table)
unfolding update_changed Dict.get
get-update_changed k target actual [] = refl
get-update_changed k target actual ((uuid, v) ∷ table) =
    ground (arith, get-update_changed k target actual table)

-- What an update of the disks leaves of a row, by the wanted volume and the volume so far.
abbrev pub reconciled : Option Volume → Option Volume → Option Volume → Option Volume
reconciled (some target) none row = some target
reconciled none (some actual) row = none
reconciled none none row = row
reconciled (some target) (some actual) none = none
reconciled (some target) (some actual) (some v) =
    if volume_differs target actual then some (actualize_volume target v) else some v

-- After `_actualize_volumes`, a volume that is new in the specification is in the table as specified,
-- one that has left it is not, one that has changed there has the new fields and is in progress, and
-- every other row is what it was.
pub actualize_volumes_lem :
    (k : ℕ) (target_volumes actual_volumes : List Volume) (table : Dict ℕ Volume)
    → let (_, table') = actualize_volumes target_volumes actual_volumes table in
      Dict.get k table'
      ≡ reconciled
          (Dict.get k (by_uuid target_volumes []))
          (Dict.get k (by_uuid actual_volumes []))
          (Dict.get k table)
unfolding actualize_volumes
actualize_volumes_lem k target_volumes actual_volumes table =
    let target = by_uuid target_volumes [] in
    let actual = by_uuid actual_volumes [] in
    let c = get-create_missing k target actual table (by_uuid-distinct target_volumes [] refl) in
    let d = get-delete_extra k target actual (create_missing target actual table) in
    let u =
      get-update_changed k target actual
        (delete_extra target actual (create_missing target actual table)) in
    elim (Option-cases (Dict.get k target)) [
      | inl t ↦ elim (Option-cases (Dict.get k actual)) [
        | inl a ↦ elim (Option-cases (Dict.get k table)) [
          | inl r ↦ ground arith
          | inr (r, h) ↦ ground arith
        ]
        | inr (a, h) ↦ ground arith
      ]
      | inr (t, h) ↦ elim (Option-cases (Dict.get k actual)) [
        | inl a ↦ ground arith
        | inr (a, g) ↦ elim (Option-cases (Dict.get k table)) [
          | inl r ↦ ground arith
          | inr (r, i) ↦ ground arith
        ]
      ]
    ]
