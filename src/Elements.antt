-- ===== src/Elements.antt =====
-- exordos_core/elements

pub mod Links
pub mod Engine
pub mod Reconcile
pub mod Json
pub mod Actualize
pub mod Manifest
mod Cases
