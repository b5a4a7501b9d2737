-- ===== src/Compute/Builders/NodeSets/Scaling.antt =====
-- The nodes of a set when its replicas change, and its status.
use genesis_core.Common.{
  ℕ, ◌+◌, ◌-◌, ◌≡◌, refl, ap, ◌∙◌, leb, zero, suc, ◌==◌, ◌&&◌, Bool, false, Option, none, some,
  select, all, any, inl, inr, Bool-cases, List, [], ◌∷◌, ◌++◌, arith, map,
}
use genesis_core.Common.Text.{Text}
use genesis_core.Compute.Model.{NodeStatus}
use genesis_core.Compute.Builders.NodeSets.{
  NodeSet, SetNode, Actual, node, volume, is_active, all_active, length, infra_status, node_uuids,
  kept_statuses, set_node, gen_nodes, actualize_infra,
}

abbrev pub take : {A : Type 0} → ℕ → List A → List A
take zero l = []
take (suc n) [] = []
take (suc n) (a ∷ l) = a ∷ take n l

-- `n` new identifiers, from the index on.
abbrev pub new_uuids : (fresh : ℕ → ℕ) → ℕ → ℕ → List ℕ
new_uuids fresh zero idx = []
new_uuids fresh (suc n) idx = fresh idx ∷ new_uuids fresh n (idx + 1)

node_uuids_new : (fresh : ℕ → ℕ) (n idx : ℕ) → node_uuids fresh n idx [] ≡ new_uuids fresh n idx
unfolding node_uuids
node_uuids_new fresh zero idx = refl
node_uuids_new fresh (suc n) idx = ap (λ l. fresh idx ∷ l) (node_uuids_new fresh n (idx + 1))

node_uuids_lem :
    (fresh : ℕ → ℕ) (n idx : ℕ) (given : List ℕ)
    → node_uuids fresh n idx given
      ≡ (take n given ++ new_uuids fresh (n - length given) (idx + length given))
unfolding node_uuids length
node_uuids_lem fresh zero idx [] = ground arith
node_uuids_lem fresh zero idx (uuid ∷ given) = ground arith
node_uuids_lem fresh (suc n) idx [] = ground (arith, node_uuids_new fresh n (idx + 1))
node_uuids_lem fresh (suc n) idx (uuid ∷ given) =
    ground (arith, node_uuids_lem fresh n (idx + 1) given)

wanted_uuids :
    (fresh : ℕ → ℕ) (n : ℕ) (given : List ℕ)
    → node_uuids fresh n 0 given
      ≡ (take n given ++ new_uuids fresh (n - length given) (length given))
wanted_uuids fresh n given = ground (arith, node_uuids_lem fresh n 0 given)

infra_status_lem :
    (replicas : ℕ) (statuses : List NodeStatus) (current : NodeStatus)
    → is_active current ≡ false
    → is_active (infra_status replicas statuses current)
      ≡ (leb replicas (length statuses) && all_active statuses)
unfolding infra_status
infra_status_lem replicas statuses current waiting = ground arith

-- An object of the data plane is one of the nodes, and one of the nodes that are active.
abbrev pub is_wanted : List ℕ → Option Actual → Bool
is_wanted wanted (some (node uuid ipv4 status)) = any (λ t. t == uuid) wanted
is_wanted wanted _ = false

abbrev pub is_active_node : Option Actual → Bool
is_active_node (some (node uuid ipv4 status)) = is_active status
is_active_node _ = false

kept_statuses_lem :
    (wanted : List ℕ) (actual : List (Option Actual))
    → (length (kept_statuses wanted actual) ≡ length (select (is_wanted wanted) actual))
      × (all_active (kept_statuses wanted actual)
          ≡ all is_active_node (select (is_wanted wanted) actual))
unfolding kept_statuses length all_active
kept_statuses_lem wanted [] = (refl, refl)
kept_statuses_lem wanted (none ∷ rest) = kept_statuses_lem wanted rest
kept_statuses_lem wanted (some volume ∷ rest) = kept_statuses_lem wanted rest
kept_statuses_lem wanted (some (node uuid ipv4 status) ∷ rest) =
    let (count, active) = kept_statuses_lem wanted rest in
    elim (Bool-cases (any (λ t. t == uuid) wanted)) [
      | inl kept ↦ (ground arith, ground arith)
      | inr left ↦ (ground arith, ground arith)
    ]

module _ {DiskSpec NodeSpec SetVolume : Type 0} (node_spec : NodeSet DiskSpec → ℕ → NodeSpec)
    (volumes_of : NodeSet DiskSpec → ℕ → List SetVolume) (short : ℕ → Text) (fresh : ℕ → ℕ)
    (project_id : ℕ) where
  uuids_of_nodes :
      (set : NodeSet DiskSpec) (policy : ℕ) (uuids : List ℕ)
      → map
          (λ (n : SetNode NodeSpec). n.uuid)
          (map (set_node node_spec volumes_of short fresh project_id set policy) uuids)
        ≡ uuids
  unfolding set_node
  uuids_of_nodes set policy [] = refl
  uuids_of_nodes set policy (u ∷ uuids) = ap (λ l. u ∷ l) (uuids_of_nodes set policy uuids)

  -- For a set that is not active: the nodes that `actualize_infra` wants are as many of the set's
  -- nodes as it has replicas, the first ones, and new ones for the replicas that are missing; and the
  -- set becomes active exactly when the objects of the data plane that are one of those nodes are at
  -- least as many as it has replicas and all of them are active, whatever other objects are there.
  pub actualize_infra_lem :
      (set : NodeSet DiskSpec) (policy : ℕ) (targets : List ℕ) (actual : List (Option Actual))
      (waiting : is_active set.status ≡ false)
      → let (set', nodes, _) =
          actualize_infra node_spec volumes_of short fresh project_id set policy targets actual in
        let wanted =
          take set.replicas targets
          ++ new_uuids fresh (set.replicas - length targets) (length targets) in
        let there = select (is_wanted wanted) actual in
        (map (λ (n : SetNode NodeSpec). n.uuid) nodes ≡ wanted)
        × (is_active set'.status ≡ (leb set.replicas (length there) && all is_active_node there))
  unfolding actualize_infra gen_nodes
  actualize_infra_lem set policy targets actual waiting =
      let uuids = wanted_uuids fresh set.replicas targets in
      let given = node_uuids fresh set.replicas 0 targets in
      let status = infra_status_lem set.replicas (kept_statuses given actual) set.status waiting in
      let (count, active) = kept_statuses_lem given actual in
      (
        uuids_of_nodes set policy given ∙ uuids,
        status
            ∙ ap (λ (n : ℕ). leb set.replicas n && all_active (kept_statuses given actual)) count
            ∙ ap (λ (b : Bool). leb set.replicas (length (select (is_wanted given) actual)) && b)
                active
            ∙ ap
                (λ (us : List ℕ).
                  let there = select (is_wanted us) actual in
                  leb set.replicas (length there) && all is_active_node there)
                uuids,
      )
