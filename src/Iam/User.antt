-- ===== src/Iam/User.antt =====
-- `ModelWithSecret` and `User` of exordos_core/user_api/iam/dm/models.py: secrets, one-time
-- passwords and confirmation codes. Each method returns the row as it is saved.
pub mod Secrets
pub mod Codes
use Prim.Native.String.{String}
use genesis_core.Common.{
  ℕ, ◌+◌, ◌==◌, leb, ◌&&◌, not, Bool, true, false, Option, none, some, if◌then◌else◌,
}
use genesis_core.Common.Outcome.{Outcome, ok, raised, ◌>>=◌}
use genesis_core.Iam.Model.{
  User, UserType, user, service, anon, UserSource, iam, keycloak, Services, IamError,
  credentials_invalid, otp_not_enabled, otp_already_enabled, otp_invalid_code, cannot_confirm_user,
  service_password_change,
}

abbrev pub is_service : UserType → Bool
is_service service = true
is_service _ = false

-- The digest that `ModelWithSecret.__init__` stores: a service account has the empty secret.
unfoldable pub initial_hash : Services → UserType → String → ℕ → ℕ
initial_hash services user_type secret salt =
    services.hash (if is_service user_type then "" else secret) salt

unfoldable pub check_secret : Services → String → User → Bool
check_secret services secret u = u.secret_hash == services.hash secret u.salt

unfoldable pub validate_secret : Services → String → User → Outcome IamError Unit
unfolding check_secret
validate_secret services secret u =
    if check_secret services secret u then ok tt else raised credentials_invalid

-- The setter of `secret`, with the salt that is generated.
unfoldable pub set_secret : Services → ℕ → String → User → Outcome IamError User
set_secret services salt value u =
    if is_service u.user_type
    then raised service_password_change
    else ok (record u { salt = salt; secret_hash = services.hash value salt })

unfoldable pub change_secret_safe : Services → ℕ → String → String → User → Outcome IamError User
unfolding validate_secret set_secret
change_secret_safe services salt old_secret new_secret u =
    validate_secret services old_secret u >>= λ _. set_secret services salt new_secret u

-- `IamUserSource.process_secret`, and that of Keycloak, which stores a secret that it accepts.
unfoldable pub process_secret : Services → ℕ → String → User → Outcome IamError User
unfolding check_secret set_secret
process_secret services salt secret u =
    let remote =
      if services.keycloak_accepts u.email secret
      then set_secret services salt secret u
      else raised credentials_invalid in
    if check_secret services secret u
    then ok u
    else elim u.user_source [ iam ↦ raised credentials_invalid | keycloak ↦ remote ]

-- `totp.verify(str(code))` against the secret of the user; an empty secret stands as `none`.
abbrev pub verifies : Services → Option ℕ → ℕ → Bool
verifies services none code = false
verifies services (some secret) code = services.verify_totp secret code

abbrev pub verifies_option : Services → Option ℕ → Option ℕ → Bool
verifies_option services secret none = false
verifies_option services secret (some code) = verifies services secret code

unfoldable pub validate_otp : Services → Option ℕ → User → Outcome IamError Bool
validate_otp services code u =
    if not u.otp_enabled
    then raised otp_not_enabled
    else ok (verifies_option services u.otp_secret code)

unfoldable pub enable_otp : Services → ℕ → ℕ → String → User → Outcome IamError User
unfolding process_secret
enable_otp services salt fresh password u =
    if u.otp_enabled
    then raised otp_already_enabled
    else process_secret services salt password u >>= λ u'.
        ok (record u' { otp_secret = some fresh })

abbrev pub has_secret : Option ℕ → Bool
has_secret none = false
has_secret (some s) = true

unfoldable pub activate_otp : Services → ℕ → User → Outcome IamError User
activate_otp services code u =
    if u.otp_enabled
    then raised otp_already_enabled
    else if not (has_secret u.otp_secret)
    then raised otp_not_enabled
    else if not (verifies services u.otp_secret code)
    then raised otp_invalid_code
    else ok (record u { otp_enabled = true })

unfoldable pub disable_otp : Services → ℕ → String → User → Outcome IamError User
unfolding process_secret
disable_otp services salt password u = process_secret services salt password u >>= λ u'.
    ok (record u' { otp_secret = none; otp_enabled = false })

-- USER_CONFIRMATION_CODE_TTL
abbrev pub code_ttl : ℕ
code_ttl = 3600

abbrev pub or_fresh : Option ℕ → ℕ → ℕ
or_fresh none fresh = fresh
or_fresh (some code) fresh = code

unfoldable pub create_confirmation_code : ℕ → ℕ → User → User
create_confirmation_code now fresh u = record u {
  confirmation_code = some (or_fresh u.confirmation_code fresh);
  confirmation_code_made_at = some now;
}

-- `code_age > TTL`, with the time of the code on the other side.
abbrev pub check_code : ℕ → Option ℕ → Option ℕ → Option ℕ → Bool
check_code now (some code) (some mine) (some made_at) =
    leb now (made_at + code_ttl) && (mine == code)
check_code now _ _ _ = false

unfoldable pub check_confirmation_code : ℕ → Option ℕ → User → Bool
check_confirmation_code now code u =
    check_code now code u.confirmation_code u.confirmation_code_made_at

unfoldable pub clear_confirmation_code : User → User
clear_confirmation_code u = record u { confirmation_code = none; confirmation_code_made_at = none }

-- `make_newcomer` binds a role to the user, which the row of the user does not show.
unfoldable pub confirm_email : User → User
unfolding clear_confirmation_code
confirm_email u = clear_confirmation_code (record u { email_verified = true })

unfoldable pub confirm_email_by_code : ℕ → Option ℕ → User → Outcome IamError User
unfolding check_confirmation_code confirm_email
confirm_email_by_code now code u =
    if check_confirmation_code now code u then ok (confirm_email u) else raised cannot_confirm_user

unfoldable pub reset_secret : Services → ℕ → String → User → Outcome IamError User
unfolding set_secret clear_confirmation_code
reset_secret services salt value u =
    set_secret services salt value u >>= λ u'. ok (clear_confirmation_code u')

unfoldable pub reset_secret_by_code :
    Services → ℕ → ℕ → String → Option ℕ → User → Outcome IamError User
unfolding check_confirmation_code reset_secret
reset_secret_by_code services now salt value code u =
    if check_confirmation_code now code u
    then reset_secret services salt value u
    else raised cannot_confirm_user
