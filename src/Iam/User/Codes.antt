-- ===== src/Iam/User/Codes.antt =====
-- Confirmation codes: how long one is good, and that it is good once.
use Prim.Native.String.{String}
use genesis_core.Common.{ℕ, ◌+◌, true, Option, some, ◌≡◌, arith, ◌↔◌, ◌≤◌}
use genesis_core.Common.Outcome.{ok, raised}
use genesis_core.Iam.Model.{User, Services, cannot_confirm_user}
use genesis_core.Iam.User.{
  code_ttl, or_fresh, create_confirmation_code, check_confirmation_code, clear_confirmation_code,
  confirm_email, confirm_email_by_code, set_secret, reset_secret, reset_secret_by_code,
}

-- A code that `create_confirmation_code` gave at one time is accepted at another exactly while it is
-- not older than its time to live, and no other code is: a code that the user had already stays, and
-- its time begins anew.
pub check-create_confirmation_code :
    (made now fresh code : ℕ) (u : User)
    → (check_confirmation_code now (some code) (create_confirmation_code made fresh u) ≡ true)
      ↔ ((now ≤ made + code_ttl) × (or_fresh u.confirmation_code fresh ≡ code))
unfolding check_confirmation_code create_confirmation_code
check-create_confirmation_code made now fresh code u = ground arith

-- After a code has confirmed the email address, neither `confirm_email_by_code` nor
-- `reset_secret_by_code` accepts any code, at whatever time.
pub confirm_email_by_code_once :
    (services : Services) (now later salt : ℕ) (secret : String) (code again : Option ℕ)
    (u u' : User)
    → confirm_email_by_code now code u ≡ ok u'
    → (confirm_email_by_code later again u' ≡ raised cannot_confirm_user)
      × (reset_secret_by_code services later salt secret again u' ≡ raised cannot_confirm_user)
      × (u'.email_verified ≡ true)
unfolding confirm_email_by_code reset_secret_by_code confirm_email clear_confirmation_code
    check_confirmation_code
confirm_email_by_code_once services now later salt secret code again u u' h = ground arith

-- The same after a code has reset the secret, which is then the new one.
pub reset_secret_by_code_once :
    (services : Services) (now later salt : ℕ) (secret : String) (code again : Option ℕ)
    (u u' : User)
    → reset_secret_by_code services now salt secret code u ≡ ok u'
    → (confirm_email_by_code later again u' ≡ raised cannot_confirm_user)
      × (u'.secret_hash ≡ services.hash secret u'.salt)
unfolding confirm_email_by_code reset_secret_by_code reset_secret set_secret clear_confirmation_code
    check_confirmation_code
reset_secret_by_code_once services now later salt secret code again u u' h = ground arith
