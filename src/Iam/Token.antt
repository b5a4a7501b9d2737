-- ===== src/Iam/Token.antt =====
-- `Token` of exordos_core/user_api/iam/dm/models.py. The tables that it queries are one record;
-- times are seconds, and a new token is given its UUIDs and the time of the call.
pub mod Lifetime
use Prim.Native.String.{String}
use genesis_core.Common.{
  ℕ, ◌+◌, ◌-◌, ◌%◌, ◌==◌, ltb, ◌&&◌, not, Bool, true, false, Option, none, some, List, [], ◌∷◌,
  if◌then◌else◌, select, any,
}
use genesis_core.Common.Dict
use genesis_core.Common.Dict.{string_key}
use genesis_core.Common.Outcome.{Outcome, ok, raised, ◌>>=◌}
use genesis_core.Common.Text.{Text, codes, text_key}
use genesis_core.Iam.Model.{
  Token, User, Project, Member, RoleBinding, PermissionBinding, Permission, PermissionView,
  IamError, invalid_refresh_token, invalid_auth_token, otp_invalid_code, Services,
}
use genesis_core.Iam.Scope.{Wanted, nothing, default_project, by_uuid, wanted_project}
use genesis_core.Iam.User.{validate_otp}

-- The rows of the tables, each in the order in which it was created.
pub record Tables : Type 0 where
  pub users : List User
  pub projects : List Project
  pub members : List Member
  pub role_bindings : List RoleBinding
  pub permission_bindings : List PermissionBinding
  pub permissions : List Permission
  pub permission_views : List PermissionView

-- Python's `str.lower`, and the text of a UUID.
pub record Texts : Type 0 where
  pub lower : Text → Text
  pub show_uuid : ℕ → Text
  pub parse_uuid : Text → Option ℕ

-- `Organization.get_default`: the first organization that the user owns.
unfoldable pub default_organization : ℕ → List Member → Option ℕ
default_organization user [] = none
default_organization user (m ∷ ms) =
    if (m.user == user) && m.is_owner then some m.organization else default_organization user ms

abbrev pub is_project_of : Option ℕ → Option Project → Bool
is_project_of (some organization) (some p) = p.organization == organization
is_project_of _ _ = false

abbrev pub project_uuid : Option Project → Option ℕ
project_uuid none = none
project_uuid (some p) = some p.uuid

-- `Project.get_default`: the project of the first binding of the user in that organization.
unfoldable pub default_of : ℕ → Option ℕ → List RoleBinding → Option ℕ
default_of user organization [] = none
default_of user organization (b ∷ bs) =
    if (b.user == user) && is_project_of organization b.project
    then project_uuid b.project
    else default_of user organization bs

unfoldable pub get_default_project : Tables → ℕ → Option ℕ
unfolding default_organization default_of
get_default_project tables user =
    default_of user (default_organization user tables.members) tables.role_bindings

-- `_get_project_by_uuid`, whatever the user.
unfoldable pub get_project_by_uuid : Texts → Text → List Project → Option ℕ
get_project_by_uuid texts name [] = none
get_project_by_uuid texts name (p ∷ ps) =
    if text_key.same (texts.show_uuid p.uuid) name
    then some p.uuid
    else get_project_by_uuid texts name ps

abbrev pub project_wanted : Tables → Texts → ℕ → Wanted → Option ℕ
project_wanted tables texts user nothing = none
project_wanted tables texts user default_project = get_default_project tables user
project_wanted tables texts user (by_uuid name) = get_project_by_uuid texts name tables.projects

unfoldable pub get_project_by_scope : Tables → Texts → ℕ → Text → Option ℕ
unfolding get_default_project get_project_by_uuid
get_project_by_scope tables texts user scope =
    project_wanted tables texts user (wanted_project texts.lower scope)

pub record Request : Type 0 where
  pub user : ℕ
  pub iam_client : ℕ
  pub project : Option ℕ
  pub scope : Text
  pub nonce : Option Text
  pub ttl : Option ℕ
  pub refresh_ttl : Option ℕ

abbrev pub or_default : Option ℕ → ℕ → ℕ
or_default none d = d
or_default (some a) d = a

-- 60 minutes, and one day.
abbrev pub default_expiration : ℕ
default_expiration = 3600

abbrev pub default_refresh_expiration : ℕ
default_refresh_expiration = 86400

-- `Token.__init__`. An empty scope names no project.
abbrev pub chosen_project : Tables → Texts → ℕ → Option ℕ → Text → Option ℕ
chosen_project tables texts user (some p) scope = some p
chosen_project tables texts user none [] = none
chosen_project tables texts user none (c ∷ scope) =
    get_project_by_scope tables texts user (c ∷ scope)

unfoldable pub new_token : Tables → Texts → ℕ → ℕ → ℕ → Request → Token
unfolding get_project_by_scope
new_token tables texts now uuid refresh_uuid r = record {
  uuid = uuid;
  user = r.user;
  iam_client = r.iam_client;
  project = chosen_project tables texts r.user r.project r.scope;
  scope = r.scope;
  expiration_delta = or_default r.ttl default_expiration;
  refresh_expiration_delta = or_default r.refresh_ttl default_refresh_expiration;
  expiration_at = now + or_default r.ttl default_expiration;
  refresh_expiration_at = now + or_default r.refresh_ttl default_refresh_expiration;
  refresh_token_uuid = refresh_uuid;
  nonce = r.nonce;
}

unfoldable pub check_refresh_expiration : ℕ → Token → Bool
check_refresh_expiration now t = ltb now t.refresh_expiration_at

unfoldable pub validate_refresh_expiration : ℕ → Token → Outcome IamError Unit
unfolding check_refresh_expiration
validate_refresh_expiration now t =
    if check_refresh_expiration now t then ok tt else raised invalid_refresh_token

unfoldable pub check_expiration : ℕ → Token → Bool
check_expiration now t = ltb now t.expiration_at

unfoldable pub validate_expiration : ℕ → Token → Outcome IamError Unit
unfolding check_expiration
validate_expiration now t = if check_expiration now t then ok tt else raised invalid_auth_token

-- `scope or self.scope`
abbrev pub scope_or : Option Text → Text → Text
scope_or none old = old
scope_or (some []) old = old
scope_or (some (c ∷ scope)) old = c ∷ scope

unfoldable pub refresh : Tables → Texts → ℕ → Option Text → Token → Token
unfolding get_project_by_scope
refresh tables texts now scope t = record t {
  expiration_at = now + t.expiration_delta;
  project = get_project_by_scope tables texts t.user (scope_or scope t.scope);
  scope = scope_or scope t.scope;
}

abbrev pub same_project : Option ℕ → Option ℕ → Bool
same_project none none = true
same_project (some p) (some q) = p == q
same_project _ _ = false

unfoldable pub find_permission : String → List Permission → Option ℕ
find_permission name [] = none
find_permission name (p ∷ ps) =
    if string_key.same p.name name then some p.uuid else find_permission name ps

abbrev pub grants : Token → PermissionView → Bool
grants t v = (v.user == t.user) && same_project v.project t.project

abbrev pub has_granted : Tables → Token → Option ℕ → Bool
has_granted tables t none = false
has_granted tables t (some p) = any (λ v. grants t v && (v.permission == p)) tables.permission_views

unfoldable pub has_permission : Tables → String → Token → Bool
unfolding find_permission
has_permission tables name t = has_granted tables t (find_permission name tables.permissions)

unfoldable pub my : ℕ → List Token → Outcome IamError Token
my uuid [] = raised invalid_auth_token
my uuid (t ∷ ts) = if t.uuid == uuid then ok t else my uuid ts

pub record Introspection : Type 0 where
  pub user : ℕ
  pub project : Option ℕ
  pub permissions : List ℕ
  pub otp_verified : Bool

unfoldable pub permissions_of : List PermissionView → List ℕ
permissions_of [] = []
permissions_of (v ∷ vs) = v.permission ∷ permissions_of vs

abbrev pub otp_checked : Services → Option ℕ → User → Outcome IamError Bool
otp_checked services none u = ok false
otp_checked services (some code) u = validate_otp services (some code) u >>= λ verified.
    if verified then ok true else raised otp_invalid_code

-- With the user that `User.me` returns.
unfoldable pub introspect :
    Services → Tables → Option ℕ → User → Token → Outcome IamError Introspection
unfolding permissions_of
introspect services tables otp_code me t = otp_checked services otp_code me >>= λ verified.
    ok (record {
      user = t.user;
      project = t.project;
      permissions = permissions_of (
          select (λ v. (v.user == me.uuid) && same_project v.project t.project)
            tables.permission_views);
      otp_verified = verified;
    })

-- `(until - now).seconds`: the seconds of the difference without its days.
unfoldable pub delta_seconds : ℕ → ℕ → ℕ
delta_seconds until now = (until + (86400 - now % 86400)) % 86400

-- "expires_in" and "refresh_expires_in" of `get_response_body`.
unfoldable pub expires_in : ℕ → Token → ℕ × ℕ
unfolding delta_seconds
expires_in now t = (delta_seconds t.expiration_at now, delta_seconds t.refresh_expiration_at now)
