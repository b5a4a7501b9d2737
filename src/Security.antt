-- ===== src/Security.antt =====
-- The security rules, exordos_core/user_api/security/dm/models.py, and the middleware that asks them,
-- exordos_core/user_api/api/middlewares.py. Regular expressions, the case of letters, Firebase and the
-- captchas are parameters. The Firebase app is taken to be there.
pub mod Allowed
mod Cases
use genesis_core.Common.{
  ℕ, ◌==◌, ◌&&◌, ◌||◌, not, Bool, true, false, Option, none, some, List, [], ◌∷◌, all, any, map,
  select, if◌then◌else◌,
}
use genesis_core.Common.Text.{Text, text_beq, codes}

-- `gcl_iam`'s introspection: a session may be missing, and have no project or no user.
pub record UserInfo : Type 0 where
  pub email : Option Text
  pub uuid : Option Text

pub record Introspection : Type 0 where
  pub project_id : Option ℕ
  pub user_info : Option UserInfo

-- The payload is none where it is no dictionary, and else its keys.
pub record Request : Type 0 where
  pub method : Text
  pub path_info : Text
  pub header : Text → Option Text
  pub payload : Option (List Text)
  pub introspection : Option Introspection

-- `verify_token` is none where the token is refused, and else the application; a captcha's header is
-- parsed and its solution verified with the key.
pub record Library : Type 0 where
  pub lower : Text → Text
  pub upper : Text → Text
  pub re_match : Text → Text → Bool
  pub verify_token : Text → Option (Option Text)
  pub verify_solution : Text → Text → Bool

pub data Condition : Type 0 where
  uri_condition uri_regex : Text → Option Text → Condition

pub data Verifier : Type 0 where
  no_fields : (fields : List Text) → Verifier
  firebase_app_check : (allowed_app_ids : List Text) → Verifier
  captcha : (hmac_key : Text) → Verifier
  admin_bypass : (bypass_users : List Text) → Verifier

pub data Operator : Type 0 where
  or_operator and_operator : Operator

pub record Rule : Type 0 where
  pub condition : Condition
  pub verifier : Verifier
  pub operator : Operator
  pub project_id : Option ℕ

abbrev pub occurs_in : Text → List Text → Bool
occurs_in t = any (λ u. text_beq t u)

-- A text that is none or empty counts as missing.
abbrev pub filled : Option Text → Option Text
filled (some (c ∷ t)) = some (c ∷ t)
filled _ = none

abbrev pub same_project : Option ℕ → Option ℕ → Bool
same_project none none = true
same_project (some p) (some q) = p == q
same_project _ _ = false

abbrev pub is_and : Rule → Bool
is_and rule = elim rule.operator [ and_operator ↦ true | or_operator ↦ false ]

abbrev pub is_empty : List Rule → Bool
is_empty [] = true
is_empty (_ ∷ _) = false

module _ (lib : Library) where
  abbrev pub method_fits : Option Text → Request → Bool
  method_fits method request = elim (filled method) [
    | none ↦ true
    | some wanted ↦ text_beq (lib.upper request.method) wanted
  ]

  unfoldable pub can_handle : Condition → Request → Bool
  can_handle (uri_condition uri method) request =
      method_fits method request && text_beq (lib.lower request.path_info) (lib.lower uri)
  can_handle (uri_regex regex method) request =
      method_fits method request && lib.re_match regex request.path_info

  unfoldable pub verify_fields : List Text → Request → Bool
  verify_fields fields request = elim request.payload [
    | none ↦ true
    | some keys ↦ not (any (λ field. occurs_in (lib.lower field) (map lib.lower keys)) fields)
  ]

  unfoldable pub get_token_from_headers : Request → Option Text
  get_token_from_headers request = elim (filled (request.header (codes "X-Firebase-AppCheck"))) [
    | some token ↦ some token
    | none ↦ filled (request.header (codes "X-Goog-Firebase-AppCheck"))
  ]

  abbrev pub is_allowed_app : List Text → Option Text → Bool
  is_allowed_app [] app = true
  is_allowed_app (id ∷ ids) app = elim app [ none ↦ false | some a ↦ occurs_in a (id ∷ ids) ]

  unfoldable pub verify_firebase : List Text → Request → Bool
  unfolding get_token_from_headers
  verify_firebase allowed_app_ids request = elim (get_token_from_headers request) [
    | none ↦ false
    | some token ↦ elim (lib.verify_token token) [
      | none ↦ false
      | some app ↦ is_allowed_app allowed_app_ids app
    ]
  ]

  unfoldable pub verify_captcha : Text → Request → Bool
  verify_captcha hmac_key request = elim (filled (request.header (codes "X-Captcha"))) [
    | none ↦ false
    | some payload ↦ lib.verify_solution payload hmac_key
  ]

  abbrev pub is_bypass : List Text → Option Text → Bool
  is_bypass users value = elim (filled value) [
    | none ↦ false
    | some v ↦ occurs_in (lib.lower v) (map lib.lower users)
  ]

  unfoldable pub verify_admin : List Text → Request → Bool
  verify_admin bypass_users request = elim request.introspection [
    | none ↦ false
    | some info ↦ elim info.user_info [
      | none ↦ false
      | some user ↦ is_bypass bypass_users user.email || is_bypass bypass_users user.uuid
    ]
  ]

  unfoldable pub verify : Verifier → Request → Bool
  unfolding verify_fields verify_firebase verify_captcha verify_admin
  verify (no_fields fields) = verify_fields fields
  verify (firebase_app_check allowed_app_ids) = verify_firebase allowed_app_ids
  verify (captcha hmac_key) = verify_captcha hmac_key
  verify (admin_bypass bypass_users) = verify_admin bypass_users

  abbrev pub project_of : Request → Option ℕ
  project_of request = elim request.introspection [ none ↦ none | some info ↦ info.project_id ]

  -- The rules of the request's project, or of no project, that can handle it.
  abbrev pub is_available : Request → Rule → Bool
  is_available request rule =
      same_project rule.project_id (project_of request) && can_handle rule.condition request

  abbrev pub verify_all : List Rule → Request → Bool
  verify_all rules request = all (λ rule. verify rule.verifier request) rules

  abbrev pub verify_any : List Rule → Request → Bool
  verify_any rules request = any (λ rule. verify rule.verifier request) rules

  unfoldable pub verify_rules : List Rule → List Rule → Request → Bool
  unfolding verify
  verify_rules and_rules or_rules request =
      if is_empty and_rules && is_empty or_rules
      then true
      else (if not (is_empty and_rules) && verify_all and_rules request
          then true
          else (if not (is_empty or_rules) then verify_any or_rules request else false))

  -- Whether the request goes on; else it is answered with `ActionNotAllowed`.
  unfoldable pub process_request : List Rule → Request → Bool
  unfolding can_handle verify_rules
  process_request rules request =
      let available = select (is_available request) rules in
      verify_rules (select is_and available) (select (λ rule. not (is_and rule)) available) request
