-- ===== src/Compute.antt =====
-- exordos_core/compute
pub mod Model
pub mod Scheduler
pub mod Builders
pub mod Agent
pub mod Libvirt
