-- ===== src/Auth/Handler/Routes/Logout.antt =====
-- The routes of a session: who is told who they are, and what a logout ends.
use wesko_go_backend.Common.{◌≡◌, ◌≢◌, ◌↔◌, inl, inr, true, some, Bool-cases, arith}
use wesko_go_backend.Common.Text.{Text}
use wesko_go_backend.Common.Exec.{ok, Call-cases, Result-cases}
use wesko_go_backend.Common.Http.{bound, decode_and_validate_json}
use wesko_go_backend.Auth.Errors.{Error, invalid_refresh_token, unauthorized}
use wesko_go_backend.Auth.Models.{User, AccessClaims}
use wesko_go_backend.Auth.Service.Login.{validate_current_user}
use wesko_go_backend.Auth.Service.Session.{logout}
use wesko_go_backend.Auth.Service.Session.Rotation.{Revokes, refresh_after_logout}
use wesko_go_backend.Auth.Handler.{
  status_of, write_service_error, refresh_token_for_client, require_csrf_from_web,
}
use wesko_go_backend.Auth.Handler.Bodies.{RefreshRequest}
use wesko_go_backend.Auth.Handler.Base.{Handler, Context, refuse, with_body, with_call, with_check}
use wesko_go_backend.Auth.Handler.Session.{
  request_claims, when_complete, answer_user, answer_logout, handle_me, handle_refresh,
  handle_logout, with_refresh_token, require_access_token,
}
use wesko_go_backend.Auth.Handler.Routes
use wesko_go_backend.Auth.Handler.Routes.{route}

module _ {S : Type 0} (h : Handler S) (c : Context) where
  refuse_lem : (e : Error) → (refuse h c e).status ≢ 200
  unfolding refuse write_service_error status_of
  refuse_lem e k = ground arith

  refuse_no_content : (e : Error) → (refuse h c e).status ≢ 204
  unfolding refuse write_service_error status_of
  refuse_no_content e k = ground arith

  -- A request whose access token is accepted, for a profile that is complete, of a known account.
  pub record IsKnown (w : S) : Type 0 where
    pub claims : AccessClaims
    pub checked : S
    pub user : User
    pub found : S
    pub accepted : request_claims h c w ≡ (ok claims, checked)
    pub complete : claims.is_profile_complete ≡ true
    pub known : validate_current_user h.service claims.subject checked ≡ (ok user, found)

  me_sound : (w : S) → (route h c Routes.me w).0.status ≡ 200 → IsKnown w
  unfolding route require_access_token with_call when_complete handle_me answer_user
  me_sound w k = elim (Call-cases (request_claims h c w)) [
    | inr (e, t, q) ↦ absurd (let no_ok = refuse_lem e in ground arith)
    | inl (claims, t, q) ↦ elim (Bool-cases claims.is_profile_complete) [
      | inr d ↦ absurd (let no_ok = refuse_lem unauthorized in ground arith)
      | inl d ↦ elim (Call-cases (validate_current_user h.service claims.subject t)) [
        | inr (e, u, r) ↦ absurd (let no_ok = refuse_lem e in ground arith)
        | inl (user, u, r) ↦ record {
          claims = claims;
          checked = t;
          user = user;
          found = u;
          accepted = q;
          complete = d;
          known = r;
        }
      ]
    ]
  ]

  me_complete : (w : S) → IsKnown w → (route h c Routes.me w).0.status ≡ 200
  unfolding route require_access_token with_call when_complete handle_me answer_user
  me_complete w r = ground (arith, r.accepted, r.complete, r.known)

  -- The route that tells who is logged in answers with success exactly if the request's access
  -- token is accepted, its profile is complete, and its account is known.
  pub me_iff : (w : S) → ((route h c Routes.me w).0.status ≡ 200) ↔ IsKnown w
  me_iff w = (me_sound w, me_complete w)

module _ {S : Type 0} (h : Handler S) (c : Context) (Absent : Text → S → Type 0)
    (laws : Revokes h.service.platform h.store Absent)
    (configured : h.service.refresh_store ≡ some h.store) where
  -- With a refresh store that keeps the contract `Revokes`, a request for new tokens is refused as
  -- one with an invalid token in the state that a logout with the same body, cookies and headers
  -- left, if the logout succeeded.
  pub refresh-logout :
      (req : RefreshRequest) (w : S)
      → (route h c (Routes.logout (bound req)) w).0.status ≡ 204
      → (route h c (Routes.refresh (bound req)) (route h c (Routes.logout (bound req)) w).1).0
        ≡ refuse h c invalid_refresh_token
  unfolding route handle_logout handle_refresh with_body with_check with_refresh_token with_call
      answer_logout decode_and_validate_json
  refresh-logout req w k =
      elim (Result-cases (
        refresh_token_for_client req.client_type (c.cookie h.cookies.refresh_token_name)
          req.refresh_token)) [
            | inr (e, q) ↦ absurd (let failed = refuse_no_content h c e in ground arith)
            | inl (token, q) ↦
                elim (Result-cases (
                  require_csrf_from_web req.client_type (c.cookie h.cookies.csrf_cookie_name)
                    (c.header h.cookies.csrf_header_name))) [
                      | inr (e, r) ↦ absurd (let failed = refuse_no_content h c e in ground arith)
                      | inl (_, r) ↦ elim (Call-cases (logout h.service h.store token w)) [
                        | inr (e, t, s) ↦
                            absurd (let failed = refuse_no_content h c e in ground arith)
                        | inl (_, t, s) ↦
                            let refused =
                              refresh_after_logout h.service h.store Absent laws configured token
                                w in
                            ground arith
                      ]
                    ]
          ]
