-- ===== src/Auth/Service/Base.antt =====
-- The struct Service of auth/service/service.go, the issue of tokens and the resend window. A nil
-- pointer or interface that the code tests for is `none`; the logger is left out.
pub mod Laws
use wesko_go_backend.Common.{
  ℕ, ◌+◌, ◌≡◌, refl, Bool, true, false, ◌&&◌, ◌∷◌, ◌++◌, Option, none, some, ltb, leb, ◌==◌, not,
  if◌then◌else◌,
}
use wesko_go_backend.Common.Text.{Text, codes}
use wesko_go_backend.Common.Exec.{Result, ok, err, pure, raise, ◌>>=◌, ◌>>◌}
use wesko_go_backend.Auth.Errors.{
  Error, unauthorized, otp_resend_limit_reached, otp_resend_too_soon,
}
use wesko_go_backend.Auth.Models.{Time, User, TokenPair, GoogleConfig, OtpConfig}
use wesko_go_backend.Auth.Ports.{
  Call, UserRepository, RefreshTokenStore, OtpProvider, PendingSignupStore, OtpRequestStateStore,
  Platform, read_clock,
}
use wesko_go_backend.Auth.Token.{TokenManager, generate_token_pair}

pub record Service (S : Type 0) : Type 0 where
  pub repo : UserRepository S
  pub token_manager : Option TokenManager
  pub refresh_store : Option (RefreshTokenStore S)
  pub otp_provider : OtpProvider S
  pub pending_signup_store : PendingSignupStore S
  pub login_otp_store : OtpRequestStateStore S
  pub otp_config : OtpConfig
  pub google_config : GoogleConfig
  pub platform : Platform S

-- loginOTPStateKey
abbrev pub login_otp_state_key : Text → Text
login_otp_state_key mobile = codes "login:" ++ mobile

module _ {S : Type 0} (s : Service S) where
  -- `time.Since(last) < cooldown` is `now < last + cooldown`.
  unfoldable pub validate_resend_window : Time → ℕ → Call S Unit
  validate_resend_window last_sent_at resend_count =
      if ltb 0 s.otp_config.max_resends && leb s.otp_config.max_resends resend_count
      then raise otp_resend_limit_reached
      else if not (last_sent_at == 0) && ltb 0 s.otp_config.resend_cooldown
      then (do
        now ← read_clock s.platform
        if ltb now (last_sent_at + s.otp_config.resend_cooldown)
            then raise otp_resend_too_soon
            else pure tt)
      else pure tt

  issue_with : Option TokenManager → Option (RefreshTokenStore S) → User → Call S TokenPair
  issue_with (some manager) (some store) user = do
    (pair, session) ← generate_token_pair s.platform manager user
    store.save pair.refresh_token session
    pure pair
  issue_with _ _ user = raise unauthorized

  unfoldable pub issue_token_pair : User → Call S TokenPair
  unfolding issue_with
  issue_token_pair user = issue_with s.token_manager s.refresh_store user
