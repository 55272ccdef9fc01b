-- ===== src/Auth/Handler/Routes.antt =====
-- RegisterRoutes of auth/http/handler.go.
pub mod Laws
pub mod Cover
pub mod Sessions
pub mod Logout
use wesko_go_backend.Common.Text.{Text}
use wesko_go_backend.Common.Http.{Bound}
use wesko_go_backend.Auth.Handler.Bodies.{
  SignupRequestBody, PasswordLoginRequestBody, OtpRequestBody, OtpVerifyRequestBody,
  SignupStatusRequestBody, RefreshRequest, CompleteProfileRequestBody,
}
use wesko_go_backend.Auth.Handler.Base.{Handler, Context, Response}
use wesko_go_backend.Auth.Handler.Signup.{
  handle_request_signup_otp, handle_verify_signup_otp, handle_resend_signup_otp,
  handle_signup_status,
}
use wesko_go_backend.Auth.Handler.Login.{
  handle_password_login, handle_request_login_otp, handle_resend_login_otp, handle_verify_login_otp,
  handle_google_callback, handle_complete_profile,
}
use wesko_go_backend.Auth.Handler.Session.{
  handle_refresh, handle_logout, require_access_token, require_partial_access_token, handle_me,
}

-- A request to a route, as gin reads it. The two routes of a signup have one handler.
pub data Request : Type 0 where
  signup_request_otp : Bound SignupRequestBody → Request
  signup_verify_otp : Bound OtpVerifyRequestBody → Request
  signup_resend_otp : Bound OtpRequestBody → Request
  signup_status : Bound SignupStatusRequestBody → Request
  password_login : Bound PasswordLoginRequestBody → Request
  login_request_otp : Bound OtpRequestBody → Request
  login_verify_otp : Bound OtpVerifyRequestBody → Request
  login_resend_otp : Bound OtpRequestBody → Request
  refresh : Bound RefreshRequest → Request
  logout : Bound RefreshRequest → Request
  me : Request
  google_callback : (code client_type : Text) → Request
  profile_complete : Bound CompleteProfileRequestBody → Request

module _ {S : Type 0} (h : Handler S) (c : Context) where
  unfoldable pub route : Request → S → Response × S
  route (signup_request_otp body) = handle_request_signup_otp h c body
  route (signup_verify_otp body) = handle_verify_signup_otp h c body
  route (signup_resend_otp body) = handle_resend_signup_otp h c body
  route (signup_status body) = handle_signup_status h c body
  route (password_login body) = handle_password_login h c body
  route (login_request_otp body) = handle_request_login_otp h c body
  route (login_verify_otp body) = handle_verify_login_otp h c body
  route (login_resend_otp body) = handle_resend_login_otp h c body
  route (refresh body) = handle_refresh h c body
  route (logout body) = handle_logout h c body
  route me = require_access_token h c (handle_me h c)
  route (google_callback code client_type) = handle_google_callback h c code client_type
  route (profile_complete body) =
      require_partial_access_token h c (handle_complete_profile h c body)
