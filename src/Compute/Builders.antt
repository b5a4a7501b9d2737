-- ===== src/Compute/Builders.antt =====
-- exordos_core/compute/builders
pub mod Machines
pub mod Volumes
pub mod NodeSets
pub mod Nodes
mod Cases
