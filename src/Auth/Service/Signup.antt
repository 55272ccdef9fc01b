-- ===== src/Auth/Service/Signup.antt =====
-- RequestSignupOTP, VerifySignupOTP, ResendSignupOTP and SignupStatus of auth/service/service.go.
pub mod Laws
pub mod Request
pub mod Resend
pub mod Status
use wesko_go_backend.Common.{Bool, true, false, not, ◌&&◌, ◌+◌, ℕ, is_empty, ltb, if◌then◌else◌}
use wesko_go_backend.Common.Text.{Text, codes, trim_space}
use wesko_go_backend.Common.Exec.{
  Result, ok, err, pure, raise, lift, attempt, ignore, map_err, ◌>>=◌, ◌>>◌,
}
use wesko_go_backend.Auth.Errors.{
  Error, invalid_otp_code, pending_signup_expired, is_cache_miss, is_user_not_found,
}
use wesko_go_backend.Auth.Models.{
  User, RegisterRequest, OtpRequest, OtpVerifyRequest, PendingSignup, TokenPair, role_customer,
}
use wesko_go_backend.Auth.Ports.{Call, read_clock}
use wesko_go_backend.Auth.Mobile.{normalize_indian_mobile}
use wesko_go_backend.Auth.Service.Base.{Service, issue_token_pair, validate_resend_window}
use wesko_go_backend.Auth.Service.Availability.{
  normalize_signup_request, ensure_signup_availability,
}

-- A pending signup that the store does not know has expired.
unfoldable pub missing_signup : Error → Error
missing_signup e = if is_cache_miss e then pending_signup_expired else e

-- The account that a verified signup becomes; the database gives the id and the times.
unfoldable pub verified_user : PendingSignup → User
verified_user pending = record {
  id = 0;
  username = pending.username;
  email = pending.email;
  mobile = pending.mobile;
  mobile_verified = true;
  role = role_customer;
  is_profile_complete = true;
  created_at = 0;
  updated_at = 0;
}

module _ {S : Type 0} (s : Service S) where
  unfoldable pub request_signup_otp : RegisterRequest → Call S Unit
  request_signup_otp req = do
    normalized ← lift (normalize_signup_request s req)
    ensure_signup_availability s normalized
    password_hash ← s.platform.generate_from_password normalized.password
    now ← read_clock s.platform
    s.otp_provider.send_verification normalized.mobile
    s.pending_signup_store.save (record {
      username = normalized.username;
      password_hash = password_hash;
      email = normalized.email;
      mobile = normalized.mobile;
      resend_count = 0;
      last_sent_at = now;
      expires_at = now + s.otp_config.pending_signup_ttl;
    })

  -- VerifySignupOTP once the pending signup is known to be alive.
  unfoldable pub confirm_signup : Text → Text → PendingSignup → Call S (User × TokenPair)
  confirm_signup mobile code pending = do
    approved ← s.otp_provider.check_verification mobile code
    if not approved then raise invalid_otp_code else (do
      user ← s.repo.register_user (verified_user pending) pending.password_hash
      ignore (s.pending_signup_store.delete_by_mobile mobile)
      tokens ← issue_token_pair s user
      pure (user, tokens))

  unfoldable pub verify_signup_otp : OtpVerifyRequest → Call S (User × TokenPair)
  verify_signup_otp req = do
    mobile ← lift (normalize_indian_mobile req.mobile)
    let code = trim_space req.code
    if is_empty code then raise invalid_otp_code else (do
      pending ← map_err missing_signup (s.pending_signup_store.get_by_mobile mobile)
      now ← read_clock s.platform
      if ltb pending.expires_at now
          then (do
            ignore (s.pending_signup_store.delete_by_mobile mobile)
            raise pending_signup_expired)
          else confirm_signup mobile code pending)

  unfoldable pub resend_signup_otp : OtpRequest → Call S Unit
  resend_signup_otp req = do
    mobile ← lift (normalize_indian_mobile req.mobile)
    pending ← map_err missing_signup (s.pending_signup_store.get_by_mobile mobile)
    validate_resend_window s pending.last_sent_at pending.resend_count
    s.otp_provider.send_verification mobile
    now ← read_clock s.platform
    s.pending_signup_store.save
        (record pending { resend_count = pending.resend_count + 1; last_sent_at = now })

  -- What SignupStatus answers from the account.
  unfoldable pub account_status : Result Error User → Call S Text
  account_status (ok user) =
      if user.mobile_verified then pure (codes "completed") else pure (codes "expired")
  account_status (err e) = if not (is_user_not_found e) then raise e else pure (codes "expired")

  -- SignupStatus from the answer of the store of pending signups on.
  unfoldable pub status_from : Text → Result Error PendingSignup → Call S Text
  status_from mobile (ok pending) = do
    now ← read_clock s.platform
    if ltb now pending.expires_at
        then pure (codes "pending")
        else (do found ← attempt (s.repo.get_user_by_mobile mobile); account_status found)
  status_from mobile (err e) =
      if not (is_cache_miss e)
      then raise e
      else do found ← attempt (s.repo.get_user_by_mobile mobile); account_status found

  unfoldable pub signup_status : Text → Call S Text
  signup_status raw = do
    mobile ← lift (normalize_indian_mobile raw)
    found ← attempt (s.pending_signup_store.get_by_mobile mobile)
    status_from mobile found
