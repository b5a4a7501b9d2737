-- ===== src/Compute/Builders/NodeSets.antt =====
-- `NodeSetBuilderService` of exordos_core/compute/builders/node_set.py, with `NodeSet.gen_nodes` of
-- exordos_core/compute/node_set/dm/models.py. The specification of the disks belongs to the kit: what
-- it makes for a node, and the volumes of the set, are parameters, and so are the new identifiers.
-- The identifiers of a set's nodes do not repeat, so the dictionary of the nodes is their list.
pub mod Scaling
use genesis_core.Common.{
  ℕ, ◌+◌, leb, zero, suc, ◌==◌, ◌&&◌, Bool, true, false, Option, none, some, List, [], ◌∷◌, ◌++◌,
  if◌then◌else◌, any, map,
}
use genesis_core.Common.Dict
use genesis_core.Common.Dict.{Dict, nat_key}
use genesis_core.Common.Dict.Updates.{is_present}
use genesis_core.Common.Text.{Text, codes}
use genesis_core.Compute.Model.{NodeType, NodeStatus}

pub record NodeSet (DiskSpec : Type 0) : Type 0 where
  pub uuid : ℕ
  pub name : Text
  pub replicas : ℕ
  pub cores : ℕ
  pub ram : ℕ
  pub node_type : NodeType
  pub disk_spec : DiskSpec
  pub status : NodeStatus
  pub nodes : Dict ℕ (Option Text)

pub record SetNode (NodeSpec : Type 0) : Type 0 where
  pub uuid : ℕ
  pub node_set : ℕ
  pub name : Text
  pub cores : ℕ
  pub ram : ℕ
  pub project_id : ℕ
  pub node_type : NodeType
  pub status : NodeStatus
  pub placement_policies : List ℕ
  pub disk_spec : NodeSpec

-- An object that the set has on the data plane: a node, or a volume, which is skipped.
pub data Actual : Type 0 where
  node : (uuid : ℕ) (ipv4 : Option Text) (status : NodeStatus) → Actual
  volume : Actual

abbrev pub is_active : NodeStatus → Bool
is_active NodeStatus.active = true
is_active _ = false

abbrev pub is_error : NodeStatus → Bool
is_error NodeStatus.error = true
is_error _ = false

abbrev pub is_new : NodeStatus → Bool
is_new NodeStatus.new = true
is_new _ = false

abbrev pub is_in_progress : NodeStatus → Bool
is_in_progress NodeStatus.in_progress = true
is_in_progress _ = false

unfoldable pub all_active : List NodeStatus → Bool
all_active [] = true
all_active (s ∷ statuses) = is_active s && all_active statuses

unfoldable pub length : {A : Type 0} → List A → ℕ
length [] = 0
length (_ ∷ rest) = length rest + 1

-- The status of the set from those of its nodes.
unfoldable pub infra_status : ℕ → List NodeStatus → NodeStatus → NodeStatus
unfolding all_active length
infra_status replicas statuses current =
    if leb replicas (length statuses) && all_active statuses
    then NodeStatus.active
    else (if any is_error statuses
        then NodeStatus.error
        else (if any is_new statuses
            then NodeStatus.new
            else (if any is_in_progress statuses then NodeStatus.in_progress else current)))

-- The identifiers of the nodes: those given, in order, and then new ones.
unfoldable pub node_uuids : (fresh : ℕ → ℕ) → (replicas idx : ℕ) → List ℕ → List ℕ
node_uuids fresh zero idx given = []
node_uuids fresh (suc n) idx [] = fresh idx ∷ node_uuids fresh n (idx + 1) []
node_uuids fresh (suc n) idx (uuid ∷ given) = uuid ∷ node_uuids fresh n (idx + 1) given

-- The statuses of the nodes that are on the data plane and in the target, and their addresses.
unfoldable pub kept_statuses : List ℕ → List (Option Actual) → List NodeStatus
kept_statuses targets [] = []
kept_statuses targets (some (node uuid ipv4 status) ∷ rest) =
    let statuses = kept_statuses targets rest in
    if any (λ t. t == uuid) targets then status ∷ statuses else statuses
kept_statuses targets (_ ∷ rest) = kept_statuses targets rest

unfoldable pub kept_nodes :
    List ℕ → List (Option Actual) → Dict ℕ (Option Text) → Dict ℕ (Option Text)
kept_nodes targets [] nodes = nodes
kept_nodes targets (some (node uuid ipv4 status) ∷ rest) nodes =
    kept_nodes targets rest
      (if any (λ t. t == uuid) targets then Dict.put uuid ipv4 nodes else nodes)
kept_nodes targets (_ ∷ rest) nodes = kept_nodes targets rest nodes

module _ {DiskSpec NodeSpec SetVolume : Type 0} (node_spec : NodeSet DiskSpec → ℕ → NodeSpec)
    (volumes_of : NodeSet DiskSpec → ℕ → List SetVolume) (short : ℕ → Text) (fresh : ℕ → ℕ)
    (project_id : ℕ) where
  unfoldable pub set_node : NodeSet DiskSpec → ℕ → ℕ → SetNode NodeSpec
  set_node set policy uuid = record {
    uuid = uuid;
    node_set = set.uuid;
    name = set.name ++ (codes "-node-" ++ short uuid);
    cores = set.cores;
    ram = set.ram;
    project_id = project_id;
    node_type = set.node_type;
    status = NodeStatus.new;
    placement_policies = policy ∷ [];
    disk_spec = node_spec set uuid;
  }

  unfoldable pub gen_nodes : NodeSet DiskSpec → ℕ → List ℕ → List (SetNode NodeSpec)
  unfolding node_uuids set_node
  gen_nodes set policy given = map (set_node set policy) (node_uuids fresh set.replicas 0 given)

  -- `create_infra`: the nodes and the volumes of a new set.
  unfoldable pub create_infra : NodeSet DiskSpec → ℕ → List (SetNode NodeSpec) × List SetVolume
  unfolding gen_nodes
  create_infra set policy = (gen_nodes set policy [], volumes_of set project_id)

  -- `actualize_infra`: the set, its nodes and its volumes. `targets` are the nodes among the objects
  -- that the set wants so far.
  unfoldable pub actualize_infra :
      NodeSet DiskSpec
      → ℕ
      → (targets : List ℕ) → List (Option Actual)
      → NodeSet DiskSpec × List (SetNode NodeSpec) × List SetVolume
  unfolding gen_nodes kept_nodes kept_statuses infra_status
  actualize_infra set policy targets actual =
      let uuids = node_uuids fresh set.replicas 0 targets in
      (
        record set {
          nodes = kept_nodes uuids actual [];
          status = infra_status set.replicas (kept_statuses uuids actual) set.status;
        },
        gen_nodes set policy targets,
        volumes_of set project_id,
      )
