-- ===== src/Iam.antt =====
-- exordos_core/user_api/iam
pub mod Model
pub mod User
pub mod Scope
pub mod Token
pub mod Client
pub mod Idp
mod Cases
