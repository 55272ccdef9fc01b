-- ===== src/Startup.antt =====
-- main.go: how the configuration becomes the parts of the server. Opening connections, signals and
-- the server's life are calls of libraries.
pub mod Laws
use wesko_go_backend.Common.{ℕ, Bool, ◌||◌, [], ◌∷◌, any, is_empty, if◌then◌else◌}
use wesko_go_backend.Common.Int.{ℤ, pos_part}
use wesko_go_backend.Common.Text.{Text, codes, eq, trim_space, to_lower}
use wesko_go_backend.Common.Exec.{Result}
use wesko_go_backend.Auth.Errors.{Error}
use wesko_go_backend.Auth.Models.{OtpConfig, GoogleConfig, RateLimitRule, OtpRateLimitConfig}
use wesko_go_backend.Auth.Token.{TokenManager, new_token_manager}
use wesko_go_backend.Auth.Handler.Cookies.{CookieConfig, with_defaults}
use wesko_go_backend.Configs.{Configs}

-- mapSameSite: net/http numbers lax 2, strict 3 and none 4.
unfoldable pub map_same_site : Text → ℕ
map_same_site value =
    if eq value (codes "strict") then 3 else if eq value (codes "none") then 4 else 2

-- normalizeEnv, where `lower` is unicode.ToLower off ASCII
unfoldable pub normalize_env : (ℕ → ℕ) → Text → Text
normalize_env lower value =
    let name = to_lower lower (trim_space value) in
    if is_empty name || eq name (codes "dev") || eq name (codes "development")
    then codes "development"
    else if eq name (codes "local")
    then codes "local"
    else if eq name (codes "stage") || eq name (codes "staging")
    then codes "staging"
    else if eq name (codes "prod") || eq name (codes "production")
    then codes "production"
    else name

unfoldable pub is_dot_env_environment : Text → Bool
is_dot_env_environment env = eq env (codes "local") || eq env (codes "development")

unfoldable pub is_release_environment : Text → Bool
is_release_environment env = eq env (codes "staging") || eq env (codes "production")

-- The durations and limits of a validated configuration are not negative.
unfoldable pub token_manager_of : Configs → Result Error TokenManager
token_manager_of c =
    new_token_manager c.auth.issuer c.auth.jwe_key (pos_part c.auth.access_token_ttl)
      (pos_part c.auth.refresh_token_ttl)

unfoldable pub otp_config_of : Configs → OtpConfig
otp_config_of c = record {
  pending_signup_ttl = pos_part c.auth.pending_signup_ttl;
  resend_cooldown = pos_part c.auth.otp_resend_cooldown;
  max_resends = pos_part c.auth.otp_max_resends;
}

unfoldable pub google_config_of : Configs → GoogleConfig
google_config_of c = record {
  client_id = c.auth.google_client_id;
  client_secret = c.auth.google_client_secret;
  redirect_uri = c.auth.google_redirect_uri;
}

unfoldable pub rule_of : ℤ → ℤ → RateLimitRule
rule_of limit window = record { limit = pos_part limit; window = pos_part window }

unfoldable pub limits_of : Configs → OtpRateLimitConfig
unfolding rule_of
limits_of c = record {
  request_ip = rule_of c.auth.otp_request_limit_ip c.auth.otp_request_limit_window;
  request_mobile = rule_of c.auth.otp_request_limit_mobile c.auth.otp_request_limit_window;
  verify_ip = rule_of c.auth.otp_verify_limit_ip c.auth.otp_verify_limit_window;
  verify_mobile = rule_of c.auth.otp_verify_limit_mobile c.auth.otp_verify_limit_window;
}

-- The cookies of the handler, with the defaults of NewWithLimiter.
unfoldable pub cookies_of : Configs → CookieConfig
unfolding map_same_site
cookies_of c = with_defaults (record {
  refresh_token_name = c.auth.cookie_name;
  domain = c.auth.cookie_domain;
  path = c.auth.cookie_path;
  secure = c.auth.cookie_secure;
  http_only = c.auth.cookie_http_only;
  same_site = map_same_site c.auth.cookie_same_site;
  csrf_cookie_name = c.auth.csrf_cookie_name;
  csrf_header_name = c.auth.csrf_header_name;
  csrf_cookie_path = c.auth.csrf_cookie_path;
  csrf_cookie_secure = c.auth.csrf_cookie_secure;
  csrf_cookie_same_site = map_same_site c.auth.csrf_cookie_same_site;
})
