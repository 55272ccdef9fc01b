-- ===== src/Auth/Handler/Signup.antt =====
-- The handlers of auth/http/handler.go for signups.
use wesko_go_backend.Common.Text.{Text, codes}
use wesko_go_backend.Common.Http.{Bound}
use wesko_go_backend.Auth.Service.Signup.{
  request_signup_otp, verify_signup_otp, resend_signup_otp, signup_status,
}
use wesko_go_backend.Auth.Handler.Bodies.{
  register_request, verify_request, otp_request, SignupRequestBody, OtpRequestBody,
  OtpVerifyRequestBody, SignupStatusRequestBody, status_body,
}
use wesko_go_backend.Auth.Handler.Base.{
  Handler, Context, Response, answer, with_body, with_call, enforce_otp_request_limit,
  enforce_otp_verify_limit, answer_tokens, answer_message,
}

module _ {S : Type 0} (h : Handler S) (c : Context) where
  unfoldable pub handle_request_signup_otp : Bound SignupRequestBody → S → Response × S
  unfolding with_body with_call enforce_otp_request_limit answer_message
  handle_request_signup_otp body = with_body h c body λ req.
      with_call h c (enforce_otp_request_limit h c req.mobile) λ _.
        with_call h c (request_signup_otp h.service (register_request req))
          (answer_message h c (codes "otp sent to mobile number"))

  unfoldable pub handle_verify_signup_otp : Bound OtpVerifyRequestBody → S → Response × S
  unfolding with_body with_call enforce_otp_verify_limit answer_tokens
  handle_verify_signup_otp body = with_body h c body λ req.
      with_call h c (enforce_otp_verify_limit h c req.mobile) λ _.
        with_call h c (verify_signup_otp h.service (verify_request req))
          (answer_tokens h c 201 req.client_type)

  unfoldable pub handle_resend_signup_otp : Bound OtpRequestBody → S → Response × S
  unfolding with_body with_call enforce_otp_request_limit answer_message
  handle_resend_signup_otp body = with_body h c body λ req.
      with_call h c (enforce_otp_request_limit h c req.mobile) λ _.
        with_call h c (resend_signup_otp h.service (otp_request req))
          (answer_message h c (codes "otp resent to mobile number"))

  -- The end of handleSignupStatus.
  unfoldable pub answer_status : Text → S → Response × S
  answer_status status w =
      (answer h c 200 (status_body (record { status = status; request_id = c.request_id })), w)

  unfoldable pub handle_signup_status : Bound SignupStatusRequestBody → S → Response × S
  unfolding with_body with_call answer_status
  handle_signup_status body =
      with_body h c body λ req. with_call h c (signup_status h.service req.mobile) answer_status
