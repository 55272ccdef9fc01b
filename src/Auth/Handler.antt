-- ===== src/Auth/Handler.antt =====
-- The decisions of auth/http/handler.go: the status of an error, the rate limit of one-time codes,
-- the CSRF check and where a refresh token is read. What gin reads of a request is an argument; a
-- cookie that is not there is `none`.
pub mod Laws
pub mod Bodies
pub mod Cookies
pub mod Base
pub mod Signup
pub mod Login
pub mod Session
pub mod Routes
use wesko_go_backend.Common.{
  ℕ, Bool, not, ◌||◌, Option, none, some, ◌++◌, is_empty, leb, if◌then◌else◌,
}
use wesko_go_backend.Common.Text.{Text, codes, eq, trim_space}
use wesko_go_backend.Common.Exec.{Result, ok, err, pure, raise, ◌>>=◌, ◌>>◌}
use wesko_go_backend.Auth.Errors
use wesko_go_backend.Auth.Errors.{Error, otp_too_many_requests, unauthorized, invalid_refresh_token}
use wesko_go_backend.Auth.Models.{RateLimitRule}
use wesko_go_backend.Auth.Ports.{Call, RateLimiter}
use wesko_go_backend.Auth.Mobile.{normalize_indian_mobile}

-- The switch of writeServiceError.
unfoldable pub status_of : Error → ℕ
status_of Errors.invalid_username = 400
status_of Errors.invalid_password = 400
status_of Errors.invalid_email = 400
status_of Errors.invalid_mobile = 400
status_of Errors.invalid_otp_code = 400
status_of Errors.invalid_mobile_format = 400
status_of Errors.user_not_found = 400
status_of Errors.profile_already_complete = 400
status_of Errors.invalid_refresh_token = 401
status_of Errors.invalid_token = 401
status_of Errors.unauthorized = 401
status_of Errors.token_expired = 401
status_of Errors.invalid_credentials = 401
status_of Errors.mobile_not_verified = 401
status_of Errors.username_already_exists = 409
status_of Errors.email_already_exists = 409
status_of Errors.mobile_already_exists = 409
status_of Errors.user_already_exists = 409
status_of Errors.signup_verification_pending = 409
status_of Errors.otp_resend_too_soon = 429
status_of Errors.otp_resend_limit_reached = 429
status_of Errors.otp_too_many_requests = 429
status_of Errors.pending_signup_expired = 410
status_of Errors.otp_provider_unavailable = 502
status_of _ = 500

-- writeServiceError: the status and the message that the client gets.
unfoldable pub write_service_error : (Error → Text) → Error → ℕ × Text
unfolding status_of
write_service_error message e =
    (status_of e, if leb 500 (status_of e) then codes "internal server error" else message e)

-- One question to the limiter.
unfoldable pub ask : {S : Type 0} → RateLimiter S → Text → RateLimitRule → Call S Unit
ask limiter key rule = do
  allowed ← limiter.allow key rule
  if not allowed then raise otp_too_many_requests else pure tt

-- enforceRateLimit
unfoldable pub enforce_rate_limit :
    {S : Type 0}
    → Option (RateLimiter S)
    → Text
    → Text
    → Text
    → RateLimitRule
    → RateLimitRule
    → Call S Unit
unfolding ask
enforce_rate_limit none action ip mobile ip_rule mobile_rule = pure tt
enforce_rate_limit (some limiter) action ip mobile ip_rule mobile_rule = do
  ask limiter (codes "otp:" ++ action ++ codes ":ip:" ++ ip) ip_rule
  elim (normalize_indian_mobile mobile) [
    | err e ↦ pure tt
    | ok normalized ↦
        ask limiter (codes "otp:" ++ action ++ codes ":mobile:" ++ normalized) mobile_rule
  ]

-- requireCSRFFromWeb, from the cookie and the header.
unfoldable pub require_csrf_from_web : Text → Option Text → Text → Result Error Unit
require_csrf_from_web client_type none header =
    if not (eq client_type (codes "web")) then ok tt else err unauthorized
require_csrf_from_web client_type (some cookie_token) header =
    let header_token = trim_space header in
    if not (eq client_type (codes "web"))
    then ok tt
    else if is_empty (trim_space cookie_token)
    then err unauthorized
    else if is_empty header_token || not (eq header_token cookie_token)
    then err unauthorized
    else ok tt

-- refreshTokenForClient, from the cookie and the token of the request.
unfoldable pub refresh_token_for_client : Text → Option Text → Text → Result Error Text
refresh_token_for_client client_type cookie request_token =
    if eq client_type (codes "web")
    then elim cookie [
      | none ↦ err invalid_refresh_token
      | some token ↦ if is_empty (trim_space token) then err invalid_refresh_token else ok token
    ]
    else if is_empty (trim_space request_token)
    then err invalid_refresh_token
    else ok request_token
