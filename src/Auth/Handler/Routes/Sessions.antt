-- ===== src/Auth/Handler/Routes/Sessions.antt =====
-- No internal error is shown, and no refresh token is handed to a script of a web page.
use wesko_go_backend.Common.{◌≡◌}
use wesko_go_backend.Common.Text.{codes}
use wesko_go_backend.Auth.Handler.Base.{Handler, Context}
use wesko_go_backend.Auth.Handler.Routes.{Request, route}
use wesko_go_backend.Auth.Handler.Routes.Laws.{
  Hides, Hides-Covers, Withholds, Draws, Withholds-Covers,
}
use wesko_go_backend.Auth.Handler.Routes.Cover.{ClientIs, route-covered}

module _ {S : Type 0} (h : Handler S) (c : Context) where
  -- What an answer with status 500 says is always the same: no request to the routes of accounts
  -- is answered with the message of an internal error.
  pub account_route-Hides : (q : Request) (w : S) → Hides h c (route h c q w).0
  account_route-Hides q w =
      route-covered h c (λ _. Unit {0}) (Hides h c) (Hides-Covers h c) q w (λ _ _. tt)

  -- Where crypto/rand does not fail, no answer to a request that names a web client holds a refresh
  -- token in its body, which scripts of a page can read.
  pub route-Withholds :
      (draws : Draws h c h.service.platform) (q : Request) (w : S)
      → ClientIs (λ client. client ≡ codes "web") q
      → Withholds h c (route h c q w).0
  route-Withholds draws q w web =
      route-covered h c (λ client. client ≡ codes "web") (Withholds h c)
        (Withholds-Covers h c draws) q w web
