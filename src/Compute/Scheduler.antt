-- ===== src/Compute/Scheduler.antt =====
-- exordos_core/compute/scheduler
pub mod Volumes
pub mod Weights
pub mod Pools
pub mod Affinity
mod Cases
