-- ===== src/Iam/Client/Grants.antt =====
-- What a token stands for: who has passed which checks when one is given out.
use Prim.Native.String.{String}
use genesis_core.Common.{
  ℕ, ◌||◌, not, Bool, true, false, Option, some, List, [], ◌∷◌, ◌++◌, any, ◌≡◌, refl, subst, arith,
  inl, inr, Option-cases,
}
use genesis_core.Common.Outcome.{ok, ok_chain}
use genesis_core.Common.Text.{Text}
use genesis_core.Iam.Model.{Token, User, Services}
use genesis_core.Iam.Scope.{project_prefix, project_parts, pieces, extract_project_from_scope}
use genesis_core.Iam.Token.{Tables, Texts, new_token, find_permission}
use genesis_core.Iam.User.{
  is_service, check_secret, process_secret, validate_otp, verifies_option, set_secret,
}
use genesis_core.Iam.Client.{
  Client, Call, authenticate_user, authenticate_user_with_password, bindings_of, is_empty,
  service_permission, grants_role, check_service_token_permission, find_service_account,
  service_account_for, create_token_for_user, handle_service_account_token_request,
}

abbrev pub factor_ok : Services → Option ℕ → User → Bool
factor_ok services code u = not u.otp_enabled || verifies_option services u.otp_secret code

-- Password authentication succeeds only for the first user that the query gives, who is no service
-- account, whose secret is then the password, and whose second factor, if it is on, has verified the
-- code. In particular no service account is ever authenticated by a password.
pub authenticate_user_sound :
    (services : Services) (salt : ℕ) (password : String) (code : Option ℕ) (first : User)
    (others : List User) (u : User)
    → authenticate_user_with_password services salt password code (first ∷ others) ≡ ok u
    → (u.uuid ≡ first.uuid)
      × (is_service first.user_type ≡ false)
      × (check_secret services password u ≡ true)
      × (factor_ok services code u ≡ true)
unfolding authenticate_user_with_password authenticate_user process_secret set_secret check_secret
    validate_otp
authenticate_user_sound services salt password code first others u h = ground arith

find_service_account_sound :
    (uuid : ℕ) (us : List User) (u : User)
    → find_service_account uuid us ≡ ok u
    → (u.uuid ≡ uuid) × (is_service u.user_type ≡ true)
unfolding find_service_account
find_service_account_sound uuid [] u h = cc
find_service_account_sound uuid (x ∷ us) u h = ground (arith, find_service_account_sound uuid us u)

service_account_sound :
    (tables : Tables) (texts : Texts) (caller account permission project : ℕ) (scope : Text)
    (service : User)
    → find_permission service_permission tables.permissions ≡ some permission
    → service_account_for tables texts caller account scope ≡ ok (project, service)
    → (any
          (grants_role permission (bindings_of caller project tables.role_bindings))
          tables.permission_bindings
        ≡ true)
      × (is_empty (bindings_of caller project tables.role_bindings) ≡ false)
      × (is_empty (bindings_of service.uuid project tables.role_bindings) ≡ false)
      × (find_service_account account tables.users ≡ ok service)
unfolding service_account_for check_service_token_permission
service_account_sound tables texts caller account permission project scope service known h =
    ground arith

-- The project is the one that the only project of the scope names.
service_account_project :
    (tables : Tables) (texts : Texts) (caller account project : ℕ) (scope : Text) (service : User)
    (h : service_account_for tables texts caller account scope ≡ ok (project, service))
    → (name : Text) × (project_parts (pieces scope) ≡ name ∷ [])
      × (texts.parse_uuid name ≡ some project)
unfolding service_account_for extract_project_from_scope
service_account_project tables texts caller account project [] service h = cc
service_account_project tables texts caller account project (s ∷ scope) service h =
    go (project_parts (pieces (s ∷ scope))) refl
  where
    go :
        (parts : List Text) (e : project_parts (pieces (s ∷ scope)) ≡ parts)
        → (name : Text) × (project_parts (pieces (s ∷ scope)) ≡ name ∷ [])
          × (texts.parse_uuid name ≡ some project)
    go [] e = ground arith
    go ([] ∷ []) e = ground arith
    go (part ∷ next ∷ parts) e = ground arith
    go ((c ∷ name) ∷ []) e = elim (Option-cases (texts.parse_uuid (c ∷ name))) [
      | inl bad ↦ ground arith
      | inr (uuid, parsed) ↦ (c ∷ name, e, ground arith)
    ]

-- Where the permission to make service tokens exists, a service token is made only on a scope that
-- names one project, by its UUID, for a caller who is bound to that project by a role with the
-- permission, and for a service account that is bound to that project too. It is a token of that
-- account, whose scope is that project alone.
pub handle_service_account_sound :
    (tables : Tables) (texts : Texts) (c : Client) (call : Call) (caller account permission : ℕ)
    (t : Token)
    → find_permission service_permission tables.permissions ≡ some permission
    → handle_service_account_token_request tables texts c call caller account ≡ ok t
    → (project : ℕ) × (service : User) × (name : Text) × (project_parts (pieces call.scope)
        ≡ name ∷ [])
      × (texts.parse_uuid name ≡ some project)
      × (any
            (grants_role permission (bindings_of caller project tables.role_bindings))
            tables.permission_bindings
          ≡ true)
      × (is_empty (bindings_of caller project tables.role_bindings) ≡ false)
      × (is_empty (bindings_of account project tables.role_bindings) ≡ false)
      × (is_service service.user_type ≡ true)
      × (service.uuid ≡ account)
      × (t.user ≡ account)
      × (t.scope ≡ project_prefix ++ texts.show_uuid project)
unfolding handle_service_account_token_request create_token_for_user new_token
handle_service_account_sound tables texts c call caller account permission t known h =
    let ((project, service), made, built) =
      ok_chain (service_account_for tables texts caller account call.scope)
        (λ found. ok (
          create_token_for_user tables texts c call found.1.uuid
            (project_prefix ++ texts.show_uuid found.0)))
        h in
    let (granted, bound, there, found) =
      service_account_sound tables texts caller account permission project call.scope service known
        made in
    let (same, is_one) = find_service_account_sound account tables.users service found in
    let (name, named, parsed) =
      service_account_project tables texts caller account project call.scope service made in
    (
      project,
      service,
      name,
      named,
      parsed,
      granted,
      bound,
      subst (λ k. is_empty (bindings_of k project tables.role_bindings) ≡ false) same there,
      is_one,
      same,
      ground arith,
      ground arith,
    )
