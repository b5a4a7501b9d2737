-- ===== src/Compute/Agent.antt =====
-- exordos_core/compute/agents and exordos_core/compute/pool/drivers
pub mod Model
pub mod Volumes
pub mod Machines
mod Cases
