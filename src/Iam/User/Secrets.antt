-- ===== src/Iam/User/Secrets.antt =====
-- What the checks of secrets and the steps of one-time passwords leave in the row of a user.
use Prim.Native.String.{String}
use genesis_core.Common.{ℕ, ◌&&◌, ◌||◌, not, Bool, true, Option, ◌≡◌, arith}
use genesis_core.Common.Outcome.{Outcome, ok}
use genesis_core.Iam.Model.{User, Services, IamError}
use genesis_core.Iam.User.{
  is_service, check_secret, validate_secret, set_secret, change_secret_safe, process_secret,
  enable_otp, activate_otp, disable_otp, create_confirmation_code, confirm_email,
  confirm_email_by_code, clear_confirmation_code, reset_secret, reset_secret_by_code, has_secret,
}

set_secret_checks :
    (services : Services) (salt : ℕ) (value : String) (u u' : User)
    → set_secret services salt value u ≡ ok u'
    → check_secret services value u' ≡ true
unfolding set_secret check_secret
set_secret_checks services salt value u u' h = ground arith

-- When `process_secret` accepts a secret, the user's source being Keycloak or not, the row that it
-- leaves has the digest of that secret, and the secret was right or Keycloak accepted it for a user
-- of that source that is no service account.
pub process_secret_checks :
    (services : Services) (salt : ℕ) (secret : String) (u u' : User)
    → process_secret services salt secret u ≡ ok u'
    → (check_secret services secret u' ≡ true)
      × ((check_secret services secret u
            || (services.keycloak_accepts u.email secret && not (is_service u.user_type)))
          ≡ true)
unfolding process_secret check_secret set_secret
process_secret_checks services salt secret u u' h = ground arith

-- A user with a second factor that is on has a secret for it.
abbrev pub otp_valid : User → Bool
otp_valid u = not u.otp_enabled || has_secret u.otp_secret

process_secret_otp :
    (services : Services) (salt : ℕ) (secret : String) (u u' : User)
    → process_secret services salt secret u ≡ ok u'
    → (u'.otp_enabled ≡ u.otp_enabled) × (u'.otp_secret ≡ u.otp_secret)
unfolding process_secret set_secret
process_secret_otp services salt secret u u' h = ground arith

pub data Operation : Type 0 where
  changes_secret : (salt : ℕ) (old new : String) → Operation
  processes_secret : (salt : ℕ) (secret : String) → Operation
  enables_otp : (salt fresh : ℕ) (password : String) → Operation
  activates_otp : (code : ℕ) → Operation
  disables_otp : (salt : ℕ) (password : String) → Operation
  creates_code : (now fresh : ℕ) → Operation
  clears_code : Operation
  confirms_email : (now : ℕ) (code : Option ℕ) → Operation
  resets_secret : (now salt : ℕ) (secret : String) (code : Option ℕ) → Operation

abbrev pub run : Services → Operation → User → Outcome IamError User
run services (changes_secret salt old new) u = change_secret_safe services salt old new u
run services (processes_secret salt secret) u = process_secret services salt secret u
run services (enables_otp salt fresh password) u = enable_otp services salt fresh password u
run services (activates_otp code) u = activate_otp services code u
run services (disables_otp salt password) u = disable_otp services salt password u
run services (creates_code now fresh) u = ok (create_confirmation_code now fresh u)
run services clears_code u = ok (clear_confirmation_code u)
run services (confirms_email now code) u = confirm_email_by_code now code u
run services (resets_secret now salt secret code) u =
    reset_secret_by_code services now salt secret code u

-- No method of a user that returns leaves the second factor on without a secret for it, if it was
-- not so before.
pub run-otp_valid :
    (services : Services) (operation : Operation) (u u' : User)
    → run services operation u ≡ ok u'
    → otp_valid u ≡ true
    → otp_valid u' ≡ true
run-otp_valid services (changes_secret salt old new) u u' h v =
    unfold change_secret_safe validate_secret set_secret in ground arith
run-otp_valid services (processes_secret salt secret) u u' h v =
    ground (arith, process_secret_otp services salt secret u u' h)
run-otp_valid services (enables_otp salt fresh password) u u' h v =
    unfold enable_otp process_secret in ground arith
run-otp_valid services (activates_otp code) u u' h v = unfold activate_otp in ground arith
run-otp_valid services (disables_otp salt password) u u' h v =
    unfold disable_otp process_secret in ground arith
run-otp_valid services (creates_code now fresh) u u' h v =
    unfold create_confirmation_code in ground arith
run-otp_valid services clears_code u u' h v = unfold clear_confirmation_code in ground arith
run-otp_valid services (confirms_email now code) u u' h v =
    unfold confirm_email_by_code confirm_email clear_confirmation_code in ground arith
run-otp_valid services (resets_secret now salt secret code) u u' h v =
    unfold reset_secret_by_code reset_secret set_secret clear_confirmation_code in ground arith
