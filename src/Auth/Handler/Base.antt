-- ===== src/Auth/Handler/Base.antt =====
-- The struct Handler of auth/http/handler.go, what gin reads of a request, and how the handlers
-- answer. Audit events and log lines are left out.
use wesko_go_backend.Common.{ℕ, zero, suc, Option, List, [], ◌∷◌, if◌then◌else◌}
use wesko_go_backend.Common.Text.{Text, codes, trim_space, to_lower, has_prefix}
use wesko_go_backend.Common.Exec.{Result, ok, err}
use wesko_go_backend.Common.Http.{Bound, value, refused, decode_and_validate_json}
use wesko_go_backend.Auth.Errors.{Error}
use wesko_go_backend.Auth.Models.{Time, User, TokenPair, OtpRateLimitConfig}
use wesko_go_backend.Auth.Ports.{Call, RateLimiter, RefreshTokenStore}
use wesko_go_backend.Auth.Service.Base.{Service}
use wesko_go_backend.Auth.Handler.{write_service_error, enforce_rate_limit}
use wesko_go_backend.Auth.Handler.Bodies.{
  Body, error_body, auth_body, message_body, to_user_response,
}
use wesko_go_backend.Auth.Handler.Cookies.{CookieConfig, Cookie, apply_refresh_token_transport}

-- `store` is the service's refresh store, without which Refresh and Logout panic; `message` is
-- Error() of an error and `format_time` the format of a time.
pub record Handler (S : Type 0) : Type 0 where
  pub service : Service S
  pub store : RefreshTokenStore S
  pub cookies : CookieConfig
  pub limiter : Option (RateLimiter S)
  pub limits : OtpRateLimitConfig
  pub message : Error → Text
  pub format_time : Time → Text

-- What gin reads of a request: its id, the client's address, its cookies and its headers.
pub record Context : Type 0 where
  pub request_id : Text
  pub client_ip : Text
  pub cookie : Text → Option Text
  pub header : Text → Text

pub record Response : Type 0 where
  pub status : ℕ
  pub cookies : List Cookie
  pub body : Body

-- `token[n:]`
unfoldable pub drop_codes : ℕ → Text → Text
drop_codes zero s = s
drop_codes (suc n) [] = []
drop_codes (suc n) (c ∷ s) = drop_codes n s

-- bearerToken, where `lower` is unicode.ToLower off ASCII
unfoldable pub bearer_token : (ℕ → ℕ) → Text → Text
unfolding drop_codes
bearer_token lower header =
    let token = trim_space header in
    if has_prefix (to_lower lower token) (codes "bearer ")
    then trim_space (drop_codes 7 token)
    else token

module _ {S : Type 0} (h : Handler S) (c : Context) where
  abbrev pub answer : ℕ → Body → Response
  answer status body = record { status = status; cookies = []; body = body }

  -- h.writeServiceError(c, err)
  unfoldable pub refuse : Error → Response
  refuse e =
      let (status, error) = write_service_error h.message e in
      answer status (error_body (record { error = error; request_id = c.request_id; details = [] }))

  -- `if err := h.decodeAndValidateJSON(c, &req); err != nil { return }`
  unfoldable pub with_body : {A : Type 0} → Bound A → (A → S → Response × S) → S → Response × S
  with_body body handle w = elim (decode_and_validate_json c.request_id body) [
    | value a ↦ handle a w
    | refused e ↦ (answer 400 (error_body e), w)
  ]

  -- `a, err := call(); if err != nil { h.writeServiceError(c, err); return }`
  unfoldable pub with_call : {A : Type 0} → Call S A → (A → S → Response × S) → S → Response × S
  unfolding refuse
  with_call call handle w =
      let (r, w') = call w in elim r [ ok a ↦ handle a w' | err e ↦ (refuse e, w') ]

  -- The same for a check that does not touch the state.
  unfoldable pub with_check :
      {A : Type 0} → Result Error A → (A → S → Response × S) → S → Response × S
  unfolding refuse
  with_check r handle w = elim r [ ok a ↦ handle a w | err e ↦ (refuse e, w) ]

  -- enforceOTPRequestLimit and enforceOTPVerifyLimit
  unfoldable pub enforce_otp_request_limit : Text → Call S Unit
  enforce_otp_request_limit mobile =
      enforce_rate_limit h.limiter (codes "request") c.client_ip mobile h.limits.request_ip
        h.limits.request_mobile

  unfoldable pub enforce_otp_verify_limit : Text → Call S Unit
  enforce_otp_verify_limit mobile =
      enforce_rate_limit h.limiter (codes "verify") c.client_ip mobile h.limits.verify_ip
        h.limits.verify_mobile

  -- The end of a handler that answers tokens.
  unfoldable pub answer_tokens : ℕ → Text → User × TokenPair → S → Response × S
  answer_tokens status client_type (user, tokens) w =
      let ((shown, cookies), w') =
        apply_refresh_token_transport h.service.platform h.cookies client_type tokens w in
      (
        record {
          status = status;
          cookies = cookies;
          body = auth_body (record { user = to_user_response h.format_time user; tokens = shown });
        },
        w',
      )

  -- The end of a handler that answers a message.
  unfoldable pub answer_message : Text → Unit {0} → S → Response × S
  answer_message message done w =
      (answer 202 (message_body (record { message = message; request_id = c.request_id })), w)
