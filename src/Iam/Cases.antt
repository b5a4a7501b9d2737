-- ===== src/Iam/Cases.antt =====
-- Inputs on which the identity service of exordos_core/user_api/iam runs, and the theorems at them.
use genesis_core.Common.{
  ℕ, ◌+◌, ◌-◌, ◌≤◌, ◌<◌, ◌==◌, ◌≡◌, ◌↔◌, refl, true, false, Bool, Option, none, some, List, [], ◌∷◌,
  ◌++◌, any, arith, not, ◌&&◌, ◌||◌,
}
use genesis_core.Common.Outcome.{ok}
use genesis_core.Common.Text.{Text, codes}
use genesis_core.Iam.Model.{User, user, service, keycloak, iam, Services, Token}
use genesis_core.Iam.User.{
  code_ttl, or_fresh, create_confirmation_code, check_confirmation_code, confirm_email_by_code,
  reset_secret_by_code, process_secret, check_secret, is_service,
}
use genesis_core.Iam.User.Secrets.{otp_valid, activates_otp, run-otp_valid}
use genesis_core.Iam.Scope.{
  extract_project_from_scope, wanted_project, project_prefix, project_parts, pieces,
}
use genesis_core.Iam.Token.{
  Tables, Texts, delta_seconds, introspect, Introspection, has_permission, find_permission,
}
use genesis_core.Iam.Token.Lifetime.{has_permission-introspect}
use genesis_core.Iam.Client.{
  Client, Call, authenticate_user_with_password, handle_service_account_token_request, bindings_of,
  is_empty, grants_role,
}
use genesis_core.Iam.Client.Grants.{
  factor_ok, authenticate_user_sound, handle_service_account_sound,
}
use genesis_core.Iam.Idp.{
  Idp, uri, AuthInfo, Ask, authorize, confirm, check, get_token_by_authorization_code,
}
use genesis_core.Iam.Idp.Flow.{authorize-confirm-exchange}

-- A digest that is its salt for the right password, and a code that is the secret.
abbrev services : Services
services = record {
  hash = λ secret salt. salt;
  verify_totp = λ secret code. secret == code;
  keycloak_accepts = λ email secret. true;
}

abbrev someone : User
someone = record {
  uuid = 1;
  name = "someone";
  email = "someone@example";
  user_type = user;
  user_source = keycloak;
  salt = 4;
  secret_hash = 5;
  otp_enabled = false;
  otp_secret = some 77;
  email_verified = false;
  confirmation_code = some 12;
  confirmation_code_made_at = some 100;
}

abbrev robot : User
robot = record someone { uuid = 2; name = "robot"; user_type = service; user_source = iam }

abbrev with_otp : User
with_otp = record someone { otp_enabled = true }

abbrev checked : User
checked = record with_otp { salt = 6; secret_hash = 6 }

run-otp_valid_example : otp_valid with_otp ≡ true
unfolding genesis_core.Iam.User.activate_otp
run-otp_valid_example = run-otp_valid services (activates_otp 77) someone with_otp refl refl

authenticate_user_sound_example :
    (checked.uuid ≡ with_otp.uuid)
    × (is_service with_otp.user_type ≡ false)
    × (check_secret services "secret" checked ≡ true)
    × (factor_ok services (some 77) checked ≡ true)
unfolding authenticate_user_with_password process_secret genesis_core.Iam.User.validate_otp
authenticate_user_sound_example =
    authenticate_user_sound services 6 "secret" (some 77) with_otp (robot ∷ []) checked refl

abbrev confirmed_user : User
confirmed_user = record someone {
  email_verified = true;
  confirmation_code = none;
  confirmation_code_made_at = none;
}

abbrev texts : Texts
texts = record { lower = λ text. text; show_uuid = λ uuid. uuid ∷ []; parse_uuid = λ text. some 40 }

abbrev tables : Tables
tables = record {
  users = someone ∷ robot ∷ [];
  projects = record { uuid = 40; organization = 3 } ∷ [];
  members = [];
  role_bindings =
      record { user = 1; role = 8; project = some (record { uuid = 40; organization = 3 }) }
      ∷ record { user = 2; role = 9; project = some (record { uuid = 40; organization = 3 }) }
      ∷ [];
  permission_bindings = record { role = 8; permission = 70 } ∷ [];
  permissions = record { uuid = 70; name = "iam.service_token.create" } ∷ [];
  permission_views = record { permission = 70; user = 1; project = some 40 } ∷ [];
}

abbrev token : Token
token = record {
  uuid = 20;
  user = 1;
  iam_client = 30;
  project = some 40;
  scope = codes "project:40";
  expiration_delta = 3600;
  refresh_expiration_delta = 86400;
  expiration_at = 4600;
  refresh_expiration_at = 87400;
  refresh_token_uuid = 21;
  nonce = none;
}

abbrev refreshed : Token
refreshed = record token { expiration_at = 8000 + 3600; project = none; scope = codes "openid" }

abbrev info : Introspection
info = record { user = 1; project = some 40; permissions = 70 ∷ []; otp_verified = false }

has_permission-introspect_example :
    has_permission tables "iam.service_token.create" token
    ≡ elim (find_permission "iam.service_token.create" tables.permissions) [
      | none ↦ false
      | some p ↦ any (λ q. q == p) info.permissions
    ]
unfolding introspect
has_permission-introspect_example =
    has_permission-introspect services tables none "iam.service_token.create" someone token info
      refl refl

abbrev client : Client
client = record { uuid = 30; client_id = "client"; salt = 1; secret_hash = 1 }

abbrev call : Call
call = record {
  password = "secret";
  otp_code = none;
  scope = codes "openid project:40";
  ttl = none;
  refresh_ttl = none;
  service_account = some 2;
  now = 1000;
  salt = 6;
  token_uuid = 22;
  refresh_uuid = 23;
}

abbrev robot_token : Token
robot_token = record token {
  uuid = 22;
  user = 2;
  project = some 40;
  scope = codes "project:" ++ (40 ∷ []);
  refresh_token_uuid = 23;
}

handle_service_account_sound_example :
    (project : ℕ) × (account : User) × (name : Text) × (project_parts (pieces call.scope)
      ≡ name ∷ [])
    × (texts.parse_uuid name ≡ some project)
    × (any (grants_role 70 (bindings_of 1 project tables.role_bindings)) tables.permission_bindings
        ≡ true)
    × (is_empty (bindings_of 1 project tables.role_bindings) ≡ false)
    × (is_empty (bindings_of 2 project tables.role_bindings) ≡ false)
    × (is_service account.user_type ≡ true)
    × (account.uuid ≡ 2)
    × (robot_token.user ≡ 2)
    × (robot_token.scope ≡ project_prefix ++ texts.show_uuid project)
unfolding handle_service_account_token_request find_permission extract_project_from_scope
    genesis_core.Common.Text.split genesis_core.Iam.Token.new_token wanted_project
handle_service_account_sound_example =
    handle_service_account_sound tables texts client call 1 2 70 robot_token refl refl

abbrev provider : Idp
provider = record {
  uuid = 50;
  iam_client = client;
  callback = uri (codes "https://a/cb");
  nonce_required = true;
}

abbrev ask : Ask
ask = record {
  client_id = "client";
  redirect_uri = codes "https://a/cb";
  state = codes "s";
  scope = codes "openid";
  nonce = codes "n";
  now = 1000;
  uuid = 60;
  code = 61;
}

abbrev asked : AuthInfo
asked = record {
  uuid = 60;
  idp = provider;
  state = codes "s";
  nonce = codes "n";
  redirect_uri = codes "https://a/cb";
  scope = codes "openid";
  expiration_time_at = 1600;
  token = none;
  code = 61;
}

abbrev id_token : Token
id_token = record token {
  uuid = 24;
  scope = codes "openid";
  refresh_token_uuid = 25;
  nonce = some (codes "n");
}

abbrev confirmed_info : AuthInfo
confirmed_info = record asked { token = some id_token }

authorize-confirm-exchange_example :
    (check (λ pattern text. false) provider.callback (codes "https://a/cb") ≡ true)
    × (provider.iam_client.client_id ≡ ask.client_id)
    × ((t : Token) × (get_token_by_authorization_code 61
            (codes "https://a/cb")
            (confirmed_info ∷ [])
          ≡ ok (some t, []))
        × (t.user ≡ 1)
        × (t.iam_client ≡ 30)
        × (t.scope ≡ codes "openid"))
unfolding authorize confirm genesis_core.Iam.Token.new_token
authorize-confirm-exchange_example =
    authorize-confirm-exchange (λ pattern text. false) ask provider tables texts 1000 24 25 token []
      asked confirmed_info refl refl refl
