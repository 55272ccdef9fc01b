-- ===== src/Auth/Handler/Cookies.antt =====
-- The cookies of auth/http/handler.go: the refresh token and the CSRF token of a web client. A
-- same-site mode is its number in net/http.
use wesko_go_backend.Common.{ℕ, Bool, false, not, List, [], ◌∷◌, ◌==◌, is_empty, if◌then◌else◌}
use wesko_go_backend.Common.Int.{ℤ, pos, negsuc}
use wesko_go_backend.Common.Text.{encode_hex, Text, codes, eq}
use wesko_go_backend.Common.Exec.{ok, err, pure, ◌>>=◌}
use wesko_go_backend.Auth.Models.{TokenPair}
use wesko_go_backend.Auth.Ports.{Call, Platform}

pub record CookieConfig : Type 0 where
  pub refresh_token_name : Text
  pub domain : Text
  pub path : Text
  pub secure : Bool
  pub http_only : Bool
  pub same_site : ℕ
  pub csrf_cookie_name : Text
  pub csrf_header_name : Text
  pub csrf_cookie_path : Text
  pub csrf_cookie_secure : Bool
  pub csrf_cookie_same_site : ℕ

-- http.Cookie, with the fields that are set
pub record Cookie : Type 0 where
  pub name : Text
  pub value : Text
  pub path : Text
  pub domain : Text
  pub max_age : ℤ
  pub http_only : Bool
  pub secure : Bool
  pub same_site : ℕ

unfoldable pub or_text : Text → Text → Text
or_text given default = if is_empty given then default else given

-- http.SameSiteLaxMode is 2.
unfoldable pub or_lax : ℕ → ℕ
or_lax mode = if mode == 0 then 2 else mode

-- The defaults of NewWithLimiter.
unfoldable pub with_defaults : CookieConfig → CookieConfig
unfolding or_text or_lax
with_defaults c = record c {
  refresh_token_name = or_text c.refresh_token_name (codes "refresh_token");
  path = or_text c.path (codes "/auth");
  same_site = or_lax c.same_site;
  csrf_cookie_name = or_text c.csrf_cookie_name (codes "csrf_token");
  csrf_cookie_path = or_text c.csrf_cookie_path (codes "/auth");
  csrf_header_name = or_text c.csrf_header_name (codes "X-CSRF-Token");
  csrf_cookie_same_site = or_lax c.csrf_cookie_same_site;
}

unfoldable pub set_refresh_token_cookie : CookieConfig → Text → ℕ → Cookie
set_refresh_token_cookie c refresh_token max_age_seconds = record {
  name = c.refresh_token_name;
  value = refresh_token;
  path = c.path;
  domain = c.domain;
  max_age = pos max_age_seconds;
  http_only = c.http_only;
  secure = c.secure;
  same_site = c.same_site;
}

unfoldable pub clear_refresh_token_cookie : CookieConfig → Cookie
clear_refresh_token_cookie c = record {
  name = c.refresh_token_name;
  value = [];
  path = c.path;
  domain = c.domain;
  max_age = negsuc 0;
  http_only = c.http_only;
  secure = c.secure;
  same_site = c.same_site;
}

unfoldable pub set_csrf_cookie : CookieConfig → Text → ℕ → Cookie
set_csrf_cookie c csrf_token max_age_seconds = record {
  name = c.csrf_cookie_name;
  value = csrf_token;
  path = c.csrf_cookie_path;
  domain = c.domain;
  max_age = pos max_age_seconds;
  http_only = false;
  secure = c.csrf_cookie_secure;
  same_site = c.csrf_cookie_same_site;
}

unfoldable pub clear_csrf_cookie : CookieConfig → Cookie
clear_csrf_cookie c = record {
  name = c.csrf_cookie_name;
  value = [];
  path = c.csrf_cookie_path;
  domain = c.domain;
  max_age = negsuc 0;
  http_only = false;
  secure = c.csrf_cookie_secure;
  same_site = c.csrf_cookie_same_site;
}

module _ {S : Type 0} (p : Platform S) where
  unfoldable pub new_csrf_token : Call S Text
  unfolding encode_hex
  new_csrf_token = do data' ← p.read_random 32; pure (encode_hex data')

  -- applyRefreshTokenTransport: the tokens of the body and the cookies, in the order they are set.
  unfoldable pub apply_refresh_token_transport :
      CookieConfig → Text → TokenPair → S → (TokenPair × List Cookie) × S
  unfolding new_csrf_token set_refresh_token_cookie set_csrf_cookie
  apply_refresh_token_transport c client_type tokens w =
      let (r, w') = new_csrf_token w in
      if not (eq client_type (codes "web")) then ((tokens, []), w) else elim r [
        | err e ↦ ((tokens, []), w')
        | ok csrf_token ↦ (
          (
            record tokens { refresh_token = [] },
            set_refresh_token_cookie c tokens.refresh_token tokens.refresh_token_expires_in
                ∷ set_csrf_cookie c csrf_token tokens.refresh_token_expires_in
                ∷ [],
          ),
          w',
        )
      ]
