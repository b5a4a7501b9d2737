-- ===== src/Iam/Model.antt =====
-- The rows of exordos_core/user_api/iam/dm/models.py, with the fields that the modelled code reads.
-- UUIDs, salts, digests and TOTP secrets are numbers; times are seconds.
use Prim.Native.String.{String}
use genesis_core.Common.{ℕ, Bool, Option}
use genesis_core.Common.Text.{Text}

pub data UserType : Type 0 where
  user service anon : UserType

pub data UserSource : Type 0 where
  iam keycloak : UserSource

pub record User : Type 0 where
  pub uuid : ℕ
  pub name : String
  pub email : String
  pub user_type : UserType
  pub user_source : UserSource
  pub salt : ℕ
  pub secret_hash : ℕ
  pub otp_enabled : Bool
  pub otp_secret : Option ℕ
  pub email_verified : Bool
  pub confirmation_code : Option ℕ
  pub confirmation_code_made_at : Option ℕ

pub data IamError : Type 0 where
  credentials_invalid otp_not_enabled otp_already_enabled otp_invalid_code : IamError
  cannot_confirm_user service_password_change service_password_auth : IamError
  client_authentication project_scope_required cannot_create_service_token : IamError
  user_not_found multiple_projects invalid_refresh_token invalid_auth_token : IamError
  invalid_client_id invalid_redirect_uri invalid_nonce role_not_found permission_not_found :
      IamError

-- What the code only calls: PBKDF2 with the global salt, the check of a TOTP code at the time of the
-- call, and the Keycloak server.
pub record Services : Type 0 where
  pub hash : String → ℕ → ℕ
  pub verify_totp : ℕ → ℕ → Bool
  pub keycloak_accepts : String → String → Bool

pub record Organization : Type 0 where
  pub uuid : ℕ

pub record Project : Type 0 where
  pub uuid : ℕ
  pub organization : ℕ

pub record Member : Type 0 where
  pub organization : ℕ
  pub user : ℕ
  pub is_owner : Bool

pub record RoleBinding : Type 0 where
  pub user : ℕ
  pub role : ℕ
  pub project : Option Project

pub record PermissionBinding : Type 0 where
  pub role : ℕ
  pub permission : ℕ

pub record Permission : Type 0 where
  pub uuid : ℕ
  pub name : String

-- A row of the view of the permissions that a user has in a project.
pub record PermissionView : Type 0 where
  pub permission : ℕ
  pub user : ℕ
  pub project : Option ℕ

pub record Token : Type 0 where
  pub uuid : ℕ
  pub user : ℕ
  pub iam_client : ℕ
  pub project : Option ℕ
  pub scope : Text
  pub expiration_delta : ℕ
  pub refresh_expiration_delta : ℕ
  pub expiration_at : ℕ
  pub refresh_expiration_at : ℕ
  pub refresh_token_uuid : ℕ
  pub nonce : Option Text
