-- ===== src/Iam/Client.antt =====
-- `IamClient` of exordos_core/user_api/iam/dm/models.py: authentication and the ways to a token.
-- A new token is given its UUIDs, the time of the call and a salt, which Keycloak users may need.
pub mod Grants
use Prim.Native.String.{String}
use genesis_core.Common.{
  ℕ, ◌+◌, ◌==◌, ◌&&◌, ◌||◌, not, Bool, true, false, Option, none, some, List, [], ◌∷◌, ◌++◌,
  if◌then◌else◌, select, any,
}
use genesis_core.Common.Dict
use genesis_core.Common.Dict.{string_key}
use genesis_core.Common.Outcome.{Outcome, ok, raised, ◌>>=◌}
use genesis_core.Common.Text.{Text, codes}
use genesis_core.Iam.Model.{
  Token, User, Project, RoleBinding, PermissionBinding, Permission, IamError, Services,
  credentials_invalid, service_password_auth, otp_invalid_code, client_authentication,
  project_scope_required, cannot_create_service_token, user_not_found, permission_not_found,
  invalid_refresh_token,
}
use genesis_core.Iam.Scope.{extract_project_from_scope, project_prefix}
use genesis_core.Iam.Token.{
  Tables, Texts, Request, new_token, refresh, validate_refresh_expiration, find_permission,
}
use genesis_core.Iam.User.{is_service, process_secret, validate_otp}

pub record Client : Type 0 where
  pub uuid : ℕ
  pub client_id : String
  pub salt : ℕ
  pub secret_hash : ℕ

unfoldable pub validate_client_creds : Services → String → String → Client → Outcome IamError Unit
validate_client_creds services client_id secret c =
    if string_key.same client_id "" || string_key.same secret ""
    then raised client_authentication
    else if not (string_key.same c.client_id client_id)
        || not (c.secret_hash == services.hash secret c.salt)
    then raised client_authentication
    else ok tt

-- The second factor of a user who passed the first.
abbrev pub otp_passed : Services → Option ℕ → User → Outcome IamError User
otp_passed services code u =
    if not u.otp_enabled
    then ok u
    else validate_otp services code u >>= λ verified.
        if verified then ok u else raised otp_invalid_code

-- The loop of `_authenticate_user` ends with the first user.
unfoldable pub authenticate_user :
    Services → ℕ → String → Option ℕ → List User → Outcome IamError (Option User)
authenticate_user services salt password code [] = ok none
authenticate_user services salt password code (u ∷ us) =
    if is_service u.user_type
    then raised service_password_auth
    else process_secret services salt password u >>= λ u'.
        otp_passed services code u' >>= λ passed. ok (some passed)

abbrev pub or_invalid : Option User → Outcome IamError User
or_invalid none = raised credentials_invalid
or_invalid (some u) = ok u

-- `_perform_security_hardening` computes a digest that nothing reads.
unfoldable pub authenticate_user_with_password :
    Services → ℕ → String → Option ℕ → List User → Outcome IamError User
unfolding authenticate_user
authenticate_user_with_password services salt password code users =
    authenticate_user services salt password code users >>= or_invalid

abbrev pub is_project : ℕ → Option Project → Bool
is_project uuid none = false
is_project uuid (some p) = p.uuid == uuid

-- The bindings of a user to a project.
abbrev pub bindings_of : ℕ → ℕ → List RoleBinding → List RoleBinding
bindings_of user project = select (λ b. (b.user == user) && is_project project b.project)

abbrev pub is_empty : {A : Type 0} → List A → Bool
is_empty [] = true
is_empty (a ∷ rest) = false

abbrev pub service_permission : String
service_permission = "iam.service_token.create"

abbrev pub grants_role : ℕ → List RoleBinding → PermissionBinding → Bool
grants_role permission bindings pb =
    any (λ b. b.role == pb.role) bindings && (pb.permission == permission)

unfoldable pub check_service_token_permission : Tables → List RoleBinding → Outcome IamError Bool
check_service_token_permission tables bindings =
    elim (find_permission service_permission tables.permissions) [
      | none ↦ raised permission_not_found
      | some p ↦ ok (any (grants_role p bindings) tables.permission_bindings)
    ]

unfoldable pub find_service_account : ℕ → List User → Outcome IamError User
find_service_account uuid [] = raised user_not_found
find_service_account uuid (u ∷ us) =
    if (u.uuid == uuid) && is_service u.user_type then ok u else find_service_account uuid us

abbrev pub required_project : Texts → Option Text → Outcome IamError ℕ
required_project texts none = raised project_scope_required
required_project texts (some []) = raised project_scope_required
required_project texts (some (c ∷ name)) = elim (texts.parse_uuid (c ∷ name)) [
  | none ↦ raised cannot_create_service_token
  | some uuid ↦ ok uuid
]

abbrev pub require : Bool → IamError → Outcome IamError Unit
require true e = ok tt
require false e = raised e

-- The project and the account that a request for a service token comes down to.
unfoldable pub service_account_for : Tables → Texts → ℕ → ℕ → Text → Outcome IamError (ℕ × User)
unfolding check_service_token_permission find_service_account
service_account_for tables texts caller account scope = do
  name ← extract_project_from_scope scope
  project ← required_project texts name
  _ ←
      require (not (is_empty (bindings_of caller project tables.role_bindings)))
        cannot_create_service_token
  permitted ←
      check_service_token_permission tables (bindings_of caller project tables.role_bindings)
  _ ← require permitted cannot_create_service_token
  service ← find_service_account account tables.users
  _ ←
      require (not (is_empty (bindings_of service.uuid project tables.role_bindings)))
        cannot_create_service_token
  ok (project, service)

pub record Call : Type 0 where
  pub password : String
  pub otp_code : Option ℕ
  pub scope : Text
  pub ttl : Option ℕ
  pub refresh_ttl : Option ℕ
  pub service_account : Option ℕ
  pub now : ℕ
  pub salt : ℕ
  pub token_uuid : ℕ
  pub refresh_uuid : ℕ

unfoldable pub create_token_for_user : Tables → Texts → Client → Call → ℕ → Text → Token
create_token_for_user tables texts c call user scope =
    new_token tables texts call.now call.token_uuid call.refresh_uuid (record {
      user = user;
      iam_client = c.uuid;
      project = none;
      scope = scope;
      nonce = none;
      ttl = call.ttl;
      refresh_ttl = call.refresh_ttl;
    })

unfoldable pub handle_service_account_token_request :
    Tables → Texts → Client → Call → ℕ → ℕ → Outcome IamError Token
unfolding service_account_for create_token_for_user
handle_service_account_token_request tables texts c call caller account =
    service_account_for tables texts caller account call.scope >>= λ found. ok (
      create_token_for_user tables texts c call found.1.uuid
        (project_prefix ++ texts.show_uuid found.0))

abbrev pub token_for : Tables → Texts → Client → Call → User → Option ℕ → Outcome IamError Token
token_for tables texts c call u none =
    ok (create_token_for_user tables texts c call u.uuid call.scope)
token_for tables texts c call u (some account) =
    handle_service_account_token_request tables texts c call u.uuid account

-- `_get_token_by_password_and_smth` with the users that the query gives.
unfoldable pub get_token_by_password_and_smth :
    Services → Tables → Texts → Client → Call → List User → Outcome IamError Token
unfolding authenticate_user_with_password handle_service_account_token_request
get_token_by_password_and_smth services tables texts c call users =
    authenticate_user_with_password services call.salt call.password call.otp_code users >>= λ u.
    token_for tables texts c call u call.service_account

-- The loop of `get_token_by_refresh_token` over the stored tokens with the UUID.
unfoldable pub get_token_by_refresh_token :
    Tables → Texts → ℕ → ℕ → Option Text → List Token → Outcome IamError Token
get_token_by_refresh_token tables texts now uuid scope [] = raised invalid_refresh_token
get_token_by_refresh_token tables texts now uuid scope (t ∷ ts) =
    if t.refresh_token_uuid == uuid
    then (validate_refresh_expiration now t >>= λ _. ok (refresh tables texts now scope t))
    else get_token_by_refresh_token tables texts now uuid scope ts
