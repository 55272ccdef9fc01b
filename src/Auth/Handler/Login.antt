-- ===== src/Auth/Handler/Login.antt =====
-- The handlers of auth/http/handler.go for logins by password, by code and by Google, and for a
-- profile. GetGoogleAuthURL only builds a link with the oauth2 library: its redirect is left out.
use wesko_go_backend.Common.{ℕ, is_empty, if◌then◌else◌}
use wesko_go_backend.Common.Text.{Text, codes}
use wesko_go_backend.Common.Http.{Bound}
use wesko_go_backend.Auth.Errors.{Error, other}
use wesko_go_backend.Auth.Service.Login.{login}
use wesko_go_backend.Auth.Service.LoginOtp.{request_login_otp, resend_login_otp, verify_login_otp}
use wesko_go_backend.Auth.Service.Google.{google_login}
use wesko_go_backend.Auth.Service.Profile.{complete_profile}
use wesko_go_backend.Auth.Handler.Bodies.{
  verify_request, otp_request, login_request, PasswordLoginRequestBody, OtpRequestBody,
  OtpVerifyRequestBody, CompleteProfileRequestBody,
}
use wesko_go_backend.Auth.Handler.Base.{
  Handler, Context, Response, refuse, with_body, with_call, enforce_otp_request_limit,
  enforce_otp_verify_limit, answer_tokens, answer_message,
}

-- errors.New("missing code")
abbrev pub missing_code : Error
missing_code = other 0

module _ {S : Type 0} (h : Handler S) (c : Context) where
  unfoldable pub handle_password_login : Bound PasswordLoginRequestBody → S → Response × S
  unfolding with_body with_call answer_tokens
  handle_password_login body = with_body h c body λ req.
      with_call h c (login h.service (login_request req)) (answer_tokens h c 200 req.client_type)

  unfoldable pub handle_request_login_otp : Bound OtpRequestBody → S → Response × S
  unfolding with_body with_call enforce_otp_request_limit answer_message
  handle_request_login_otp body = with_body h c body λ req.
      with_call h c (enforce_otp_request_limit h c req.mobile) λ _.
        with_call h c (request_login_otp h.service (otp_request req))
          (answer_message h c (codes "if the account is eligible, an otp has been sent"))

  unfoldable pub handle_resend_login_otp : Bound OtpRequestBody → S → Response × S
  unfolding with_body with_call enforce_otp_request_limit answer_message
  handle_resend_login_otp body = with_body h c body λ req.
      with_call h c (enforce_otp_request_limit h c req.mobile) λ _.
        with_call h c (resend_login_otp h.service (otp_request req))
          (answer_message h c (codes "if the account is eligible, an otp has been sent"))

  unfoldable pub handle_verify_login_otp : Bound OtpVerifyRequestBody → S → Response × S
  unfolding with_body with_call enforce_otp_verify_limit answer_tokens
  handle_verify_login_otp body = with_body h c body λ req.
      with_call h c (enforce_otp_verify_limit h c req.mobile) λ _.
        with_call h c (verify_login_otp h.service (verify_request req))
          (answer_tokens h c 200 req.client_type)

  -- From the query's `code` and its `client_type`, which is `web` where it is not given.
  unfoldable pub handle_google_callback : Text → Text → S → Response × S
  unfolding with_call answer_tokens refuse
  handle_google_callback code client_type w =
      if is_empty code
      then (refuse h c missing_code, w)
      else with_call h c (google_login h.service code) (answer_tokens h c 200 client_type) w

  -- For the account that requirePartialAccessToken found.
  unfoldable pub handle_complete_profile : Bound CompleteProfileRequestBody → ℕ → S → Response × S
  unfolding with_body with_call answer_tokens
  handle_complete_profile body user_id = with_body h c body λ req.
      with_call h c (complete_profile h.service user_id req.username req.mobile)
        (answer_tokens h c 200 req.client_type)
