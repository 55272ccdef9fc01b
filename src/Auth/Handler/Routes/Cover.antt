-- ===== src/Auth/Handler/Routes/Cover.antt =====
-- A property of answers that the ends of the handlers have is one of every route of
-- auth/http/handler.go.
use wesko_go_backend.Auth.Errors.{unauthorized}
use wesko_go_backend.Common.{
  Option, none, some, is_empty, inl, inr, Bool-cases, ℕ, ◌≡◌, ◌≢◌, refl, arith,
}
use wesko_go_backend.Common.Text.{Text, codes}
use wesko_go_backend.Common.Http.{Bound, bound}
use wesko_go_backend.Auth.Models.{User, TokenPair}
use wesko_go_backend.Auth.Ports.{Call}
use wesko_go_backend.Auth.Service.Login.{validate_current_user, login}
use wesko_go_backend.Auth.Service.LoginOtp.{request_login_otp, resend_login_otp, verify_login_otp}
use wesko_go_backend.Auth.Service.Signup.{
  request_signup_otp, verify_signup_otp, resend_signup_otp, signup_status,
}
use wesko_go_backend.Auth.Handler.Bodies.{
  register_request, otp_request, login_request, verify_request,
}
use wesko_go_backend.Auth.Handler.Base.{
  Handler, Context, Response, with_body, with_call, answer_tokens, answer_message,
  enforce_otp_request_limit, enforce_otp_verify_limit,
}
use wesko_go_backend.Auth.Handler.Routes
use wesko_go_backend.Auth.Handler.Routes.{Request, route}
use wesko_go_backend.Auth.Handler.Routes.Laws.{
  Covers, with_body-covered, with_call-covered, issue-covered, send-covered,
}
use wesko_go_backend.Auth.Service.Google.{google_login}
use wesko_go_backend.Auth.Service.Profile.{complete_profile}
use wesko_go_backend.Auth.Service.Session.{refresh, logout}
use wesko_go_backend.Auth.Handler.{refresh_token_for_client, require_csrf_from_web}
use wesko_go_backend.Auth.Handler.Bodies.{
  RefreshRequest, CompleteProfileRequestBody, SignupStatusRequestBody,
}
use wesko_go_backend.Auth.Handler.Base.{with_check}
use wesko_go_backend.Auth.Handler.Routes.Laws.{with_check-covered}
use wesko_go_backend.Auth.Handler.Session.{
  request_claims, when_complete, answer_user, answer_logout, with_refresh_token, handle_refresh,
  handle_logout, handle_me, require_access_token, require_partial_access_token,
}
use wesko_go_backend.Auth.Handler.Login.{
  handle_password_login, handle_request_login_otp, handle_resend_login_otp, handle_verify_login_otp,
  handle_google_callback, handle_complete_profile, missing_code,
}
use wesko_go_backend.Auth.Handler.Signup.{
  answer_status, handle_request_signup_otp, handle_verify_signup_otp, handle_resend_signup_otp,
  handle_signup_status,
}

-- The type of the client that the tokens of a request are for, if it asks for tokens.
abbrev pub client_of : Request → Option Text
client_of (Routes.signup_verify_otp (bound req)) = some req.client_type
client_of (Routes.password_login (bound req)) = some req.client_type
client_of (Routes.login_verify_otp (bound req)) = some req.client_type
client_of (Routes.refresh (bound req)) = some req.client_type
client_of (Routes.google_callback code client_type) = some client_type
client_of (Routes.profile_complete (bound req)) = some req.client_type
client_of _ = none

abbrev pub ClientIs : (Text → Type 0) → Request → Type 0
ClientIs P q = (client : Text) → client_of q ≡ some client → P client

module _ {S : Type 0} (h : Handler S) (c : Context) (IsClient : Text → Type 0)
    (Q : Response → Type 0) (covers : Covers h c IsClient Q) where
  -- A body, a limit, and a call that sends a code.
  sends :
      {A : Type 0} (body : Bound A) (limit : A → Call S Unit) (call : A → Call S Unit)
      (message : Text) (w : S)
      → Q
          (with_body h c body
            (λ a. with_call h c (limit a) λ _. with_call h c (call a) (answer_message h c message))
            w).0
  sends body limit call message w =
      with_body-covered h c IsClient Q covers body
        (λ a. with_call h c (limit a) λ _. with_call h c (call a) (answer_message h c message)) w
        λ a e.
          with_call-covered h c IsClient Q covers (limit a)
            (λ _. with_call h c (call a) (answer_message h c message)) w
            λ _ t. send-covered h c IsClient Q covers (call a) message t

  -- A body, and a call that issues tokens.
  issues :
      {A : Type 0} (body : Bound A) (call : A → Call S (User × TokenPair)) (status : ℕ)
      (client : A → Text) (w : S)
      → status ≢ 500
      → ((a : A) → body ≡ bound a → IsClient (client a))
      → Q
          (with_body h c body
            (λ a. with_call h c (call a) (answer_tokens h c status (client a)))
            w).0
  issues body call status client w n k =
      with_body-covered h c IsClient Q covers body
        (λ a. with_call h c (call a) (answer_tokens h c status (client a))) w
        λ a e. issue-covered h c IsClient Q covers (call a) status (client a) w n (k a e)

  -- The same behind a limit.
  confirms :
      {A : Type 0} (body : Bound A) (limit : A → Call S Unit) (call : A → Call S (User × TokenPair))
      (status : ℕ) (client : A → Text) (w : S)
      → status ≢ 500
      → ((a : A) → body ≡ bound a → IsClient (client a))
      → Q
          (with_body h c body
            (λ a.
              with_call h c
                (limit a)
                λ _. with_call h c (call a) (answer_tokens h c status (client a)))
            w).0
  confirms body limit call status client w n k =
      with_body-covered h c IsClient Q covers body
        (λ a.
          with_call h c (limit a) λ _. with_call h c (call a) (answer_tokens h c status (client a)))
        w
        λ a e.
          with_call-covered h c IsClient Q covers (limit a)
            (λ _. with_call h c (call a) (answer_tokens h c status (client a))) w
            λ _ t. issue-covered h c IsClient Q covers (call a) status (client a) t n (k a e)

  -- The two checks of the cookies and headers pass their errors on.
  with_token :
      (req : RefreshRequest) (handle : Text → S → Response × S) (w : S)
      → ((token : Text) → Q (handle token w).0)
      → Q (with_refresh_token h c req handle w).0
  unfolding with_refresh_token
  with_token req handle w k =
      let token =
        refresh_token_for_client req.client_type (c.cookie h.cookies.refresh_token_name)
          req.refresh_token in
      let csrf =
        require_csrf_from_web req.client_type (c.cookie h.cookies.csrf_cookie_name)
          (c.header h.cookies.csrf_header_name) in
      with_check-covered h c IsClient Q covers token (λ a. with_check h c csrf λ _. handle a) w
        λ a. with_check-covered h c IsClient Q covers csrf (λ _. handle a) w λ _. k a

  me-covered : (w : S) → Q (require_access_token h c (handle_me h c) w).0
  unfolding require_access_token handle_me when_complete answer_user
  me-covered w =
      with_call-covered h c IsClient Q covers (request_claims h c)
        (when_complete h c (handle_me h c)) w
        λ claims t. elim (Bool-cases claims.is_profile_complete) [
          | inl e ↦ rw e (
              with_call-covered h c IsClient Q covers
                (validate_current_user h.service claims.subject) (answer_user h c) t
                λ user u. covers.plain _ (omega arith) (λ b k. cc))
          | inr e ↦ rw e (covers.fails unauthorized)
        ]

  profile-covered :
      (body : Bound CompleteProfileRequestBody) (w : S)
      → ((req : CompleteProfileRequestBody) → body ≡ bound req → IsClient req.client_type)
      → Q (require_partial_access_token h c (handle_complete_profile h c body) w).0
  unfolding require_partial_access_token handle_complete_profile
  profile-covered body w k =
      with_call-covered h c IsClient Q covers (request_claims h c)
        (λ claims.
          with_call h c (validate_current_user h.service claims.subject)
            λ user. handle_complete_profile h c body user.id)
        w
        λ claims t.
          with_call-covered h c IsClient Q covers (validate_current_user h.service claims.subject)
            (λ user. handle_complete_profile h c body user.id) t
            λ user u.
              issues body (λ req. complete_profile h.service user.id req.username req.mobile) 200
                (λ req. req.client_type) u (omega arith) k

  google-covered :
      (code client_type : Text) (w : S)
      → IsClient client_type
      → Q (handle_google_callback h c code client_type w).0
  unfolding handle_google_callback
  google-covered code client_type w k = elim (Bool-cases (is_empty code)) [
    | inl e ↦ rw e (covers.fails missing_code)
    | inr e ↦ rw e (
        issue-covered h c IsClient Q covers (google_login h.service code) 200 client_type w
          (omega arith) k)
  ]

  refresh-covered :
      (body : Bound RefreshRequest) (w : S)
      → ((req : RefreshRequest) → body ≡ bound req → IsClient req.client_type)
      → Q (handle_refresh h c body w).0
  unfolding handle_refresh
  refresh-covered body w k =
      with_body-covered h c IsClient Q covers body
        (λ req. with_refresh_token h c req λ token.
          with_call h c (refresh h.service h.store token) (answer_tokens h c 200 req.client_type))
        w
        λ req e.
          with_token req
            (λ token.
              with_call h c (refresh h.service h.store token)
                (answer_tokens h c 200 req.client_type))
            w
            λ token.
              issue-covered h c IsClient Q covers (refresh h.service h.store token) 200
                req.client_type w (omega arith) (k req e)

  logout-covered : (body : Bound RefreshRequest) (w : S) → Q (handle_logout h c body w).0
  unfolding handle_logout answer_logout
  logout-covered body w =
      with_body-covered h c IsClient Q covers body
        (λ req. with_refresh_token h c req λ token.
          with_call h c (logout h.service h.store token) (answer_logout h c req.client_type))
        w
        λ req e.
          with_token req
            (λ token.
              with_call h c (logout h.service h.store token) (answer_logout h c req.client_type))
            w
            λ token.
              with_call-covered h c IsClient Q covers (logout h.service h.store token)
                (answer_logout h c req.client_type) w
                λ done t. covers.plain _ (omega arith) (λ b k. cc)

  status-covered :
      (body : Bound SignupStatusRequestBody) (w : S) → Q (handle_signup_status h c body w).0
  unfolding handle_signup_status answer_status
  status-covered body w =
      with_body-covered h c IsClient Q covers body
        (λ req. with_call h c (signup_status h.service req.mobile) (answer_status h c)) w
        λ req e.
          with_call-covered h c IsClient Q covers (signup_status h.service req.mobile)
            (answer_status h c) w λ status t. covers.plain _ (omega arith) (λ b k. cc)

  pub route-covered : (q : Request) (w : S) → ClientIs IsClient q → Q (route h c q w).0
  unfolding route handle_request_signup_otp handle_verify_signup_otp handle_resend_signup_otp
      handle_password_login handle_request_login_otp handle_resend_login_otp handle_verify_login_otp
  route-covered (Routes.signup_request_otp body) w k =
      sends body (λ req. enforce_otp_request_limit h c req.mobile)
        (λ req. request_signup_otp h.service (register_request req))
        (codes "otp sent to mobile number") w
  route-covered (Routes.signup_resend_otp body) w k =
      sends body (λ req. enforce_otp_request_limit h c req.mobile)
        (λ req. resend_signup_otp h.service (otp_request req)) (codes "otp resent to mobile number")
        w
  route-covered (Routes.login_request_otp body) w k =
      sends body (λ req. enforce_otp_request_limit h c req.mobile)
        (λ req. request_login_otp h.service (otp_request req))
        (codes "if the account is eligible, an otp has been sent") w
  route-covered (Routes.login_resend_otp body) w k =
      sends body (λ req. enforce_otp_request_limit h c req.mobile)
        (λ req. resend_login_otp h.service (otp_request req))
        (codes "if the account is eligible, an otp has been sent") w
  route-covered (Routes.signup_verify_otp body) w k =
      confirms body (λ req. enforce_otp_verify_limit h c req.mobile)
        (λ req. verify_signup_otp h.service (verify_request req)) 201 (λ req. req.client_type) w
        (omega arith) (λ req e. k req.client_type (rw e refl))
  route-covered (Routes.login_verify_otp body) w k =
      confirms body (λ req. enforce_otp_verify_limit h c req.mobile)
        (λ req. verify_login_otp h.service (verify_request req)) 200 (λ req. req.client_type) w
        (omega arith) (λ req e. k req.client_type (rw e refl))
  route-covered (Routes.password_login body) w k =
      issues body (λ req. login h.service (login_request req)) 200 (λ req. req.client_type) w
        (omega arith) (λ req e. k req.client_type (rw e refl))
  route-covered (Routes.signup_status body) w k = status-covered body w
  route-covered (Routes.refresh body) w k =
      refresh-covered body w (λ req e. k req.client_type (rw e refl))
  route-covered (Routes.logout body) w k = logout-covered body w
  route-covered Routes.me w k = me-covered w
  route-covered (Routes.google_callback code client_type) w k =
      google-covered code client_type w (k client_type refl)
  route-covered (Routes.profile_complete body) w k =
      profile-covered body w (λ req e. k req.client_type (rw e refl))
