-- ===== src/Network.antt =====
-- exordos_core/network
pub mod Model
pub mod Ipam
pub mod Service
pub mod Plane
pub mod Flat
