-- ===== src/Dns.antt =====
-- exordos_core/dns_sync
pub mod Model
pub mod Sync
pub mod Service
mod Cases
