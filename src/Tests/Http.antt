-- ===== src/Tests/Http.antt =====
-- Requests to the routes.
use wesko_go_backend.Auth.Service.Login.{validate_current_user}
use wesko_go_backend.Auth.Handler.Session.{handle_me}
use wesko_go_backend.Common.Text.{to_lower}
use wesko_go_backend.Common.Text.{has_prefix}
use wesko_go_backend.Auth.Token.{parse_access_token}
use wesko_go_backend.Auth.Service.Session.{authenticate_access_token}
use wesko_go_backend.Auth.Handler.Session.{require_access_token}
use wesko_go_backend.Memory.Refresh
use wesko_go_backend.Auth.Service.Session.{logout}
use wesko_go_backend.Auth.Handler.{require_csrf_from_web}
use wesko_go_backend.Auth.Handler.{refresh_token_for_client}
use wesko_go_backend.Common.Http.{decode_and_validate_json}
use wesko_go_backend.Auth.Handler.Session.{handle_logout}
use wesko_go_backend.Common.{◌≡◌, refl, true, none, some, [], arith, ◌++◌}
use wesko_go_backend.Common.Text.{codes, trim_space, eq}
use wesko_go_backend.Common.Decimal.{parse_uint}
use wesko_go_backend.Common.Http.{bound}
use wesko_go_backend.Auth.Errors.{invalid_refresh_token}
use wesko_go_backend.Auth.Models.{RateLimitRule}
use wesko_go_backend.Auth.Handler.Cookies.{CookieConfig}
use wesko_go_backend.Auth.Handler.Base.{Handler, Context, refuse}
use wesko_go_backend.Auth.Handler.Bodies.{PasswordLoginRequestBody, RefreshRequest}
use wesko_go_backend.Auth.Handler.Routes
use wesko_go_backend.Auth.Handler.Routes.{route}
use wesko_go_backend.Auth.Handler.Routes.Laws.{Withholds}
use wesko_go_backend.Auth.Handler.Routes.Sessions.{route-Withholds}
use wesko_go_backend.Auth.Handler.Routes.Logout.{IsKnown, me_iff, refresh-logout}
use wesko_go_backend.Catalog.Http.Parse.{parse_uint_param}
use wesko_go_backend.Catalog.Http.Parse.Laws.{IsId, parse_uint_param_iff}
use wesko_go_backend.Auth.Models.{AccessClaims}
use wesko_go_backend.Tests.Seal.{encode}
use wesko_go_backend.Tests.Sessions.{Absent, world-Revokes}
use wesko_go_backend.Tests.World.{World, world, service, world_refresh_store}

parse_run : parse_uint_param (codes "0420") ≡ some 420
unfolding parse_uint_param parse_uint
parse_run = refl

parse_uint_param_iff_example : IsId (codes "0420") 420
parse_uint_param_iff_example = (parse_uint_param_iff (codes "0420") 420).0 parse_run

abbrev cookies : CookieConfig
cookies = record {
  refresh_token_name = codes "refresh_token";
  domain = [];
  path = codes "/auth";
  secure = true;
  http_only = true;
  same_site = 2;
  csrf_cookie_name = codes "csrf_token";
  csrf_header_name = codes "X-CSRF-Token";
  csrf_cookie_path = codes "/auth";
  csrf_cookie_secure = true;
  csrf_cookie_same_site = 2;
}

abbrev rule : RateLimitRule
rule = record { limit = 2; window = 10 }

abbrev handler : Handler World
handler = record {
  service = service;
  store = world_refresh_store;
  cookies = cookies;
  limiter = none;
  limits = record {
    request_ip = rule;
    request_mobile = rule;
    verify_ip = rule;
    verify_mobile = rule;
  };
  message = λ e. codes "error";
  format_time = λ t. codes "time";
}

abbrev plain : Context
plain = record {
  request_id = codes "r1";
  client_ip = codes "10.0.0.1";
  cookie = λ name. none;
  header = λ name. [];
}

abbrev web_login : PasswordLoginRequestBody
web_login = record { username = codes "ann"; password = codes "secret"; client_type = codes "web" }

route-Withholds_example :
    Withholds handler plain (route handler plain (Routes.password_login (bound web_login)) world).0
route-Withholds_example =
    route-Withholds handler plain (λ size w. (_, _, refl)) (Routes.password_login (bound web_login))
      world (λ client e. ground arith)

abbrev mobile_logout : RefreshRequest
mobile_logout = record { refresh_token = codes "t"; client_type = codes "mobile" }

logout_run : (route handler plain (Routes.logout (bound mobile_logout)) world).0.status ≡ 204
unfolding route handle_logout decode_and_validate_json refresh_token_for_client eq trim_space
    require_csrf_from_web logout Refresh.remove
logout_run = refl

refresh-logout_example :
    (route handler plain
      (Routes.refresh (bound mobile_logout))
      (route handler plain (Routes.logout (bound mobile_logout)) world).1).0
    ≡ refuse handler plain invalid_refresh_token
refresh-logout_example =
    refresh-logout handler plain Absent world-Revokes refl mobile_logout world logout_run

abbrev claims : AccessClaims
claims = record {
  subject = codes "ann";
  token_type = codes "access";
  role = codes "customer";
  is_profile_complete = true;
  issued_at = 990;
  expires_at = 1010;
}

-- A request with Ann's access token.
abbrev with_token : Context
with_token = record plain { header = λ name. codes "Bearer " ++ encode claims }

me_run : (route handler with_token Routes.me world).0.status ≡ 200
unfolding route require_access_token authenticate_access_token parse_access_token has_prefix
    to_lower trim_space eq handle_me validate_current_user
me_run = refl

me_iff_example : IsKnown handler with_token world
me_iff_example = (me_iff handler with_token world).0 me_run
