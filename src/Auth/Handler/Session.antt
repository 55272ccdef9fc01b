-- ===== src/Auth/Handler/Session.antt =====
-- The handlers of auth/http/handler.go for sessions, and the two checks of an access token.
use wesko_go_backend.Common.{ℕ, not, List, [], ◌∷◌, if◌then◌else◌}
use wesko_go_backend.Common.Text.{Text, codes, eq}
use wesko_go_backend.Common.Http.{Bound}
use wesko_go_backend.Auth.Errors.{unauthorized}
use wesko_go_backend.Auth.Models.{User, AccessClaims}
use wesko_go_backend.Auth.Ports.{Call}
use wesko_go_backend.Auth.Service.Login.{validate_current_user}
use wesko_go_backend.Auth.Service.Session.{refresh, logout, authenticate_access_token}
use wesko_go_backend.Auth.Handler.{require_csrf_from_web, refresh_token_for_client}
use wesko_go_backend.Auth.Handler.Bodies.{RefreshRequest, user_body, no_body, to_user_response}
use wesko_go_backend.Auth.Handler.Cookies.{Cookie, clear_refresh_token_cookie, clear_csrf_cookie}
use wesko_go_backend.Auth.Handler.Base.{
  Handler, Context, Response, bearer_token, answer, refuse, with_body, with_call, with_check,
  answer_tokens,
}

module _ {S : Type 0} (h : Handler S) (c : Context) where
  -- The token of the request, and the CSRF check, from the request's cookies and headers.
  unfoldable pub with_refresh_token : RefreshRequest → (Text → S → Response × S) → S → Response × S
  unfolding with_check
  with_refresh_token req handle =
      with_check h c
        (refresh_token_for_client req.client_type (c.cookie h.cookies.refresh_token_name)
          req.refresh_token)
        λ token.
          with_check h c
            (require_csrf_from_web req.client_type (c.cookie h.cookies.csrf_cookie_name)
              (c.header h.cookies.csrf_header_name))
            λ _. handle token

  unfoldable pub handle_refresh : Bound RefreshRequest → S → Response × S
  unfolding with_body with_refresh_token with_call answer_tokens
  handle_refresh body = with_body h c body λ req. with_refresh_token req λ token.
      with_call h c (refresh h.service h.store token) (answer_tokens h c 200 req.client_type)

  -- The cookies that a logout clears.
  unfoldable pub cleared : Text → List Cookie
  unfolding clear_refresh_token_cookie clear_csrf_cookie
  cleared client_type =
      if eq client_type (codes "web")
      then clear_refresh_token_cookie h.cookies ∷ clear_csrf_cookie h.cookies ∷ []
      else []

  -- The end of handleLogout.
  unfoldable pub answer_logout : Text → Unit {0} → S → Response × S
  unfolding cleared
  answer_logout client_type done w =
      (record { status = 204; cookies = cleared client_type; body = no_body }, w)

  unfoldable pub handle_logout : Bound RefreshRequest → S → Response × S
  unfolding with_body with_refresh_token with_call answer_logout
  handle_logout body = with_body h c body λ req.
      with_refresh_token req
        λ token. with_call h c (logout h.service h.store token) (answer_logout req.client_type)

  -- The claims of the request's access token.
  unfoldable pub request_claims : Call S AccessClaims
  unfolding bearer_token
  request_claims =
      authenticate_access_token h.service
        (bearer_token h.service.platform.lower_other (c.header (codes "Authorization")))

  -- The end of requireAccessToken, before a handler of the name in the token.
  unfoldable pub when_complete : (Text → S → Response × S) → AccessClaims → S → Response × S
  unfolding refuse
  when_complete next claims w =
      if not claims.is_profile_complete then (refuse h c unauthorized, w) else next claims.subject w

  unfoldable pub require_access_token : (Text → S → Response × S) → S → Response × S
  unfolding with_call request_claims when_complete
  require_access_token next = with_call h c request_claims (when_complete next)

  -- requirePartialAccessToken, before a handler of the account's id
  unfoldable pub require_partial_access_token : (ℕ → S → Response × S) → S → Response × S
  unfolding with_call request_claims
  require_partial_access_token next =
      with_call h c request_claims λ claims.
        with_call h c (validate_current_user h.service claims.subject) λ user. next user.id

  -- The end of handleMe.
  unfoldable pub answer_user : User → S → Response × S
  answer_user user w = (answer h c 200 (user_body (to_user_response h.format_time user)), w)

  -- handleMe, of the name that requireAccessToken found
  unfoldable pub handle_me : Text → S → Response × S
  unfolding with_call answer_user
  handle_me username = with_call h c (validate_current_user h.service username) answer_user
