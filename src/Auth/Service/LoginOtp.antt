-- ===== src/Auth/Service/LoginOtp.antt =====
-- RequestLoginOTP, ResendLoginOTP and VerifyLoginOTP of auth/service/service.go.
pub mod Laws
pub mod Verify
use wesko_go_backend.Common.{Bool, true, false, not, ◌+◌, ℕ, is_empty, if◌then◌else◌}
use wesko_go_backend.Common.Text.{Text, trim_space}
use wesko_go_backend.Common.Exec.{
  Result, ok, err, pure, raise, lift, attempt, ignore, map_err, ◌>>=◌, ◌>>◌,
}
use wesko_go_backend.Auth.Errors.{
  Error, invalid_credentials, invalid_otp_code, mobile_not_verified, is_cache_miss,
  is_user_not_found,
}
use wesko_go_backend.Auth.Models.{User, OtpRequest, OtpVerifyRequest, OtpRequestState, TokenPair}
use wesko_go_backend.Auth.Ports.{Call, read_clock}
use wesko_go_backend.Auth.Mobile.{normalize_indian_mobile}
use wesko_go_backend.Auth.Service.Base.{
  Service, issue_token_pair, validate_resend_window, login_otp_state_key,
}
use wesko_go_backend.Auth.Service.Login.{hide_not_found}

-- The count of the next sending: one more than the stored one, or 0 where none is stored.
unfoldable pub next_count : Result Error OtpRequestState → ℕ
next_count (ok state) = state.resend_count + 1
next_count (err e) = 0

module _ {S : Type 0} (s : Service S) where
  -- RequestLoginOTP from the sending on.
  unfoldable pub send_login_otp : Text → Result Error OtpRequestState → Call S Unit
  send_login_otp mobile found = do
    s.otp_provider.send_verification mobile
    now ← read_clock s.platform
    s.login_otp_store.save (login_otp_state_key mobile) (record {
      mobile = mobile;
      resend_count = next_count found;
      last_sent_at = now;
      expires_at = now + s.otp_config.pending_signup_ttl;
    })

  -- A closed resend window is answered by success, and nothing is sent.
  unless_closed : Result Error Unit → Call S Unit → Call S Unit
  unless_closed (ok _) next = next
  unless_closed (err _) next = pure tt

  -- RequestLoginOTP from the answer of the state store on.
  unfoldable pub login_otp_from : Text → Result Error OtpRequestState → Call S Unit
  unfolding unless_closed
  login_otp_from mobile (ok state) = do
    window ← attempt (validate_resend_window s state.last_sent_at state.resend_count)
    unless_closed window (send_login_otp mobile (ok state))
  login_otp_from mobile (err e) =
      if not (is_cache_miss e) then raise e else send_login_otp mobile (err e)

  -- RequestLoginOTP from the answer of the repository on.
  unfoldable pub login_otp_for : Text → Result Error User → Call S Unit
  login_otp_for mobile (err e) = if is_user_not_found e then pure tt else raise e
  login_otp_for mobile (ok user) = if not user.mobile_verified then pure tt else do
    found ← attempt (s.login_otp_store.get (login_otp_state_key mobile))
    login_otp_from mobile found

  unfoldable pub request_login_otp : OtpRequest → Call S Unit
  request_login_otp req = elim (normalize_indian_mobile req.mobile) [
    | err e ↦ pure tt
    | ok mobile ↦ (do
      found ← attempt (s.repo.get_user_by_mobile mobile)
      login_otp_for mobile found)
  ]

  unfoldable pub resend_login_otp : OtpRequest → Call S Unit
  resend_login_otp req = request_login_otp req

  unfoldable pub verify_login_otp : OtpVerifyRequest → Call S (User × TokenPair)
  verify_login_otp req = do
    mobile ← map_err (λ _. invalid_credentials) (lift (normalize_indian_mobile req.mobile))
    let code = trim_space req.code
    if is_empty code then raise invalid_otp_code else (do
      user ← map_err hide_not_found (s.repo.get_user_by_mobile mobile)
      if not user.mobile_verified then raise mobile_not_verified else (do
        approved ← s.otp_provider.check_verification mobile code
        if not approved then raise invalid_otp_code else (do
          ignore (s.login_otp_store.delete (login_otp_state_key mobile))
          tokens ← issue_token_pair s user
          pure (user, tokens))))
