-- ===== src/Configs.antt =====
-- configs/configs.go: the configuration. A duration is Go's number of nanoseconds, which may be
-- negative until it is validated.
pub mod Env
pub mod Load
pub mod Validate
use wesko_go_backend.Common.{Bool, List}
use wesko_go_backend.Common.Int.{ℤ}
use wesko_go_backend.Common.Text.{Text}

-- dbase/dbConnect.go
pub record DbConfig : Type 0 where
  pub host : Text
  pub password : Text
  pub port : Text
  pub user : Text
  pub db_name : Text
  pub ssl_mode : Text
  pub debug : Bool

-- cache/redis/client.go
pub record RedisConfig : Type 0 where
  pub enabled : Bool
  pub addr : Text
  pub username : Text
  pub password : Text
  pub db : ℤ
  pub cache_ttl : ℤ
  pub dial_timeout : ℤ
  pub read_timeout : ℤ
  pub write_timeout : ℤ
  pub pool_timeout : ℤ

pub record HttpConfig : Type 0 where
  pub port : Text
  pub allowed_origins : List Text

pub record AuthConfig : Type 0 where
  pub issuer : Text
  pub jwe_key : Text
  pub access_token_ttl : ℤ
  pub refresh_token_ttl : ℤ
  pub cookie_name : Text
  pub cookie_domain : Text
  pub cookie_path : Text
  pub cookie_secure : Bool
  pub cookie_http_only : Bool
  pub cookie_same_site : Text
  pub twilio_account_sid : Text
  pub twilio_auth_token : Text
  pub twilio_verify_service_sid : Text
  pub pending_signup_ttl : ℤ
  pub otp_resend_cooldown : ℤ
  pub otp_max_resends : ℤ
  pub otp_request_limit_ip : ℤ
  pub otp_request_limit_window : ℤ
  pub otp_request_limit_mobile : ℤ
  pub otp_verify_limit_ip : ℤ
  pub otp_verify_limit_window : ℤ
  pub otp_verify_limit_mobile : ℤ
  pub csrf_cookie_name : Text
  pub csrf_header_name : Text
  pub csrf_cookie_path : Text
  pub csrf_cookie_secure : Bool
  pub csrf_cookie_same_site : Text
  pub google_client_id : Text
  pub google_client_secret : Text
  pub google_redirect_uri : Text

pub record Configs : Type 0 where
  pub db_config : DbConfig
  pub redis_config : RedisConfig
  pub http : HttpConfig
  pub auth : AuthConfig
