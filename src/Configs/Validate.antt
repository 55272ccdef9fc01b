-- ===== src/Configs/Validate.antt =====
-- Validate of configs/configs.go. `split_host_port` is net.SplitHostPort.
pub mod Laws
pub mod Groups
use wesko_go_backend.Common.{
  ℕ, Bool, true, false, not, ◌||◌, Option, none, some, List, [], ◌∷◌, ◌++◌, is_empty, ◌==◌,
  if◌then◌else◌,
}
use wesko_go_backend.Common.Int.{ℤ, pos, ltb_ℤ}
use wesko_go_backend.Common.Text.{Text, codes, eq, byte_len}
use wesko_go_backend.Common.Exec.{Result, ok, err}
use wesko_go_backend.Common.Decimal.{atoi}
use wesko_go_backend.Configs.{Configs}

-- A switch whose cases return errors: the first case that holds, or nothing.
unfoldable pub first_error : List (Bool × Text) → Result Text Unit
first_error [] = ok tt
first_error ((fails, message) ∷ rest) =
    let later = first_error rest in if fails then err message else later

-- `if _, err := strconv.Atoi(s); err != nil`
unfoldable pub is_no_number : Text → Bool
is_no_number s = elim (atoi s) [ none ↦ true | some n ↦ false ]

-- `case "lax", "strict", "none": default:`
unfoldable pub is_no_same_site : Text → Bool
is_no_same_site s = not (eq s (codes "lax") || eq s (codes "strict") || eq s (codes "none"))

unfoldable pub db_checks : Configs → List (Bool × Text)
db_checks c =
    (is_empty c.db_config.host, codes "DB_HOST is required")
    ∷ (is_empty c.db_config.port, codes "DB_PORT is required")
    ∷ (is_empty c.db_config.user, codes "DB_USER is required")
    ∷ (is_empty c.db_config.db_name, codes "DB_NAME is required")
    ∷ (is_empty c.db_config.password, codes "DB_PASS is required")
    ∷ []

unfoldable pub auth_checks : Configs → List (Bool × Text)
auth_checks c =
    (is_empty c.http.port, codes "HTTP_PORT is required")
    ∷ (is_empty c.auth.issuer, codes "AUTH_ISSUER is required")
    ∷ (is_empty c.auth.jwe_key, codes "AUTH_JWE_KEY is required")
    ∷ (not (byte_len c.auth.jwe_key == 32), codes "AUTH_JWE_KEY must be exactly 32 bytes")
    ∷ (
      not (ltb_ℤ (pos 0) c.auth.access_token_ttl),
      codes "AUTH_ACCESS_TOKEN_TTL_SECONDS must be greater than 0",
    )
    ∷ (
      not (ltb_ℤ (pos 0) c.auth.refresh_token_ttl),
      codes "AUTH_REFRESH_TOKEN_TTL_SECONDS must be greater than 0",
    )
    ∷ (is_empty c.auth.cookie_name, codes "AUTH_COOKIE_NAME is required")
    ∷ (is_empty c.auth.cookie_path, codes "AUTH_COOKIE_PATH is required")
    ∷ (is_empty c.auth.csrf_cookie_name, codes "AUTH_CSRF_COOKIE_NAME is required")
    ∷ (is_empty c.auth.csrf_header_name, codes "AUTH_CSRF_HEADER_NAME is required")
    ∷ (is_empty c.auth.csrf_cookie_path, codes "AUTH_CSRF_COOKIE_PATH is required")
    ∷ (
      not (ltb_ℤ (pos 0) c.auth.pending_signup_ttl),
      codes "AUTH_PENDING_SIGNUP_TTL_SECONDS must be greater than 0",
    )
    ∷ (
      ltb_ℤ c.auth.otp_resend_cooldown (pos 0),
      codes "AUTH_OTP_RESEND_COOLDOWN_SECONDS must be 0 or greater",
    )
    ∷ (ltb_ℤ c.auth.otp_max_resends (pos 0), codes "AUTH_OTP_MAX_RESENDS must be 0 or greater")
    ∷ (
      ltb_ℤ c.auth.otp_request_limit_ip (pos 0),
      codes "AUTH_OTP_REQUEST_LIMIT_IP must be 0 or greater",
    )
    ∷ (
      ltb_ℤ c.auth.otp_request_limit_window (pos 0),
      codes "AUTH_OTP_REQUEST_LIMIT_WINDOW_SECONDS must be 0 or greater",
    )
    ∷ (
      ltb_ℤ c.auth.otp_request_limit_mobile (pos 0),
      codes "AUTH_OTP_REQUEST_LIMIT_MOBILE must be 0 or greater",
    )
    ∷ (
      ltb_ℤ c.auth.otp_verify_limit_ip (pos 0),
      codes "AUTH_OTP_VERIFY_LIMIT_IP must be 0 or greater",
    )
    ∷ (
      ltb_ℤ c.auth.otp_verify_limit_window (pos 0),
      codes "AUTH_OTP_VERIFY_LIMIT_WINDOW_SECONDS must be 0 or greater",
    )
    ∷ (
      ltb_ℤ c.auth.otp_verify_limit_mobile (pos 0),
      codes "AUTH_OTP_VERIFY_LIMIT_MOBILE must be 0 or greater",
    )
    ∷ []

unfoldable pub redis_checks : Configs → List (Bool × Text)
redis_checks c =
    (is_empty c.redis_config.addr, codes "redis address is required")
    ∷ (
      not (ltb_ℤ (pos 0) c.redis_config.cache_ttl),
      codes "REDIS_CACHE_TTL_SECONDS must be greater than 0",
    )
    ∷ (
      not (ltb_ℤ (pos 0) c.redis_config.dial_timeout),
      codes "REDIS_DIAL_TIMEOUT_SECONDS must be greater than 0",
    )
    ∷ (
      not (ltb_ℤ (pos 0) c.redis_config.read_timeout),
      codes "REDIS_READ_TIMEOUT_SECONDS must be greater than 0",
    )
    ∷ (
      not (ltb_ℤ (pos 0) c.redis_config.write_timeout),
      codes "REDIS_WRITE_TIMEOUT_SECONDS must be greater than 0",
    )
    ∷ (
      not (ltb_ℤ (pos 0) c.redis_config.pool_timeout),
      codes "REDIS_POOL_TIMEOUT_MILLISECONDS must be greater than 0",
    )
    ∷ []

-- The two `if _, err := strconv.Atoi(…); err != nil`.
unfoldable pub db_port_checks : Configs → List (Bool × Text)
unfolding is_no_number
db_port_checks c = (is_no_number c.db_config.port, codes "DB_PORT must be a valid port") ∷ []

unfoldable pub http_port_checks : Configs → List (Bool × Text)
unfolding is_no_number
http_port_checks c = (is_no_number c.http.port, codes "HTTP_PORT must be a valid port") ∷ []

-- The last two switches.
unfoldable pub same_site_checks : Configs → List (Bool × Text)
unfolding is_no_same_site
same_site_checks c =
    (
      is_no_same_site c.auth.cookie_same_site,
      codes "AUTH_COOKIE_SAME_SITE must be one of lax, strict, none",
    )
    ∷ (
      is_no_same_site c.auth.csrf_cookie_same_site,
      codes "AUTH_CSRF_COOKIE_SAME_SITE must be one of lax, strict, none",
    )
    ∷ []

module _ (split_host_port : Text → Option (Text × Text)) where
  -- `host, port, err := net.SplitHostPort(addr); err != nil || host == "" || port == ""`
  unfoldable pub is_no_address : Text → Bool
  is_no_address addr = elim (split_host_port addr) [
    | none ↦ true
    | some (host, port) ↦ is_empty host || is_empty port
  ]

  unfoldable pub address_checks : Configs → List (Bool × Text)
  unfolding is_no_address
  address_checks c =
      (is_no_address c.redis_config.addr, codes "redis address must include host and port") ∷ []

  -- `if c.RedisConfig.Enabled { … }`
  unfoldable pub enabled_checks : Configs → List (Bool × Text)
  unfolding redis_checks address_checks
  enabled_checks c = if c.redis_config.enabled then redis_checks c ++ address_checks c else []

  -- The checks of Validate, in their order.
  unfoldable pub checks : Configs → List (Bool × Text)
  unfolding db_checks auth_checks enabled_checks db_port_checks http_port_checks same_site_checks
  checks c =
      db_checks c
      ++ (db_port_checks c
          ++ (auth_checks c ++ (http_port_checks c ++ (enabled_checks c ++ same_site_checks c))))

  unfoldable pub validate : Configs → Result Text Unit
  unfolding first_error checks
  validate c = first_error (checks c)
