-- ===== src/Configs/Load.antt =====
-- loadDBConfig and Load of configs/configs.go. `parse_url` is url.Parse with the accessors that are
-- read of its result; `env` is os.LookupEnv.
use wesko_go_backend.Common.{
  true, false, Option, none, some, [], ◌∷◌, is_empty, ◌==◌, if◌then◌else◌,
}
use wesko_go_backend.Common.Int.{pos}
use wesko_go_backend.Common.Text.{Text, codes, trim_space}
use wesko_go_backend.Configs.{DbConfig, RedisConfig, AuthConfig, Configs}
use wesko_go_backend.Configs.Env.{
  Env, get_env, get_env_string, get_first_env_string, get_env_bool, get_env_int, get_env_csv,
  duration, join_host_port,
}

-- A parsed URL: its host, port and path, its user with a password that may be missing, and its
-- query.
pub record Url : Type 0 where
  pub hostname : Text
  pub port : Text
  pub user : Option (Text × Option Text)
  pub path : Text
  pub query : Text → Text

-- `if value != "" { field = value }`
unfoldable pub override : Text → Text → Text
override value field = if is_empty value then field else value

-- strings.TrimPrefix(path, "/")
unfoldable pub trim_slash : Text → Text
trim_slash [] = []
trim_slash (c ∷ s) = if c == 47 then s else c ∷ s

-- `if parsed.User != nil { … }`
unfoldable pub with_user : Option (Text × Option Text) → DbConfig → DbConfig
unfolding override
with_user none cfg = cfg
with_user (some (name, none)) cfg = record cfg { user = override name cfg.user }
with_user (some (name, some password)) cfg = record cfg {
  user = override name cfg.user;
  password = password;
}

unfoldable pub with_url : Url → DbConfig → DbConfig
unfolding override trim_slash with_user
with_url parsed cfg =
    let named = with_user parsed.user (record cfg {
      host = override parsed.hostname cfg.host;
      port = override parsed.port cfg.port;
    }) in
    record named {
      db_name = override (trim_slash parsed.path) named.db_name;
      ssl_mode = override (parsed.query (codes "sslmode")) named.ssl_mode;
      host = override (trim_space (parsed.query (codes "host"))) named.host;
      port = override (trim_space (parsed.query (codes "port"))) named.port;
    }

module _ (parse_url : Text → Option Url) (env : Env) where
  unfoldable pub load_db_config : DbConfig
  unfolding get_env with_url
  load_db_config =
      let cfg : DbConfig = record {
        host = get_env_string env (codes "DB_HOST") (codes "localhost");
        port = get_env_string env (codes "DB_PORT") (codes "5432");
        user = get_env_string env (codes "DB_USER") (codes "postgres");
        db_name = get_env_string env (codes "DB_NAME") (codes "vesko-backend");
        password = get_env_string env (codes "DB_PASS") [];
        ssl_mode = get_env_string env (codes "DB_SSL_MODE") (codes "disable");
        debug = get_env_bool env (codes "DB_DEBUG") false;
      } in
      let raw_url = trim_space (get_env env (codes "DATABASE_URL")) in
      if is_empty raw_url
      then cfg
      else elim (parse_url raw_url) [ none ↦ cfg | some parsed ↦ with_url parsed cfg ]

  unfoldable pub load_redis_config : RedisConfig
  load_redis_config = record {
    enabled = get_env_bool env (codes "REDIS_ENABLED") false;
    addr =
        join_host_port (get_env_string env (codes "REDIS_HOST") (codes "localhost"))
          (get_env_string env (codes "REDIS_PORT") (codes "6379"));
    username = get_env_string env (codes "REDIS_USER") [];
    password = get_env_string env (codes "REDIS_PASS") [];
    db = get_env_int env (codes "REDIS_DB") (pos 0);
    cache_ttl = duration (get_env_int env (codes "REDIS_CACHE_TTL_SECONDS") (pos 300)) 1000000000;
    write_timeout =
        duration (get_env_int env (codes "REDIS_WRITE_TIMEOUT_SECONDS") (pos 2)) 1000000000;
    read_timeout =
        duration (get_env_int env (codes "REDIS_READ_TIMEOUT_SECONDS") (pos 1)) 1000000000;
    pool_timeout =
        duration (get_env_int env (codes "REDIS_POOL_TIMEOUT_MILLISECONDS") (pos 500)) 1000000;
    dial_timeout =
        duration (get_env_int env (codes "REDIS_DIAL_TIMEOUT_SECONDS") (pos 5)) 1000000000;
  }

  unfoldable pub load_auth_config : AuthConfig
  load_auth_config = record {
    issuer = get_env_string env (codes "AUTH_ISSUER") (codes "vesko");
    jwe_key = get_env_string env (codes "AUTH_JWE_KEY") [];
    access_token_ttl =
        duration (get_env_int env (codes "AUTH_ACCESS_TOKEN_TTL_SECONDS") (pos 900)) 1000000000;
    refresh_token_ttl =
        duration (get_env_int env (codes "AUTH_REFRESH_TOKEN_TTL_SECONDS") (pos 86400)) 1000000000;
    cookie_name = get_env_string env (codes "AUTH_COOKIE_NAME") (codes "refresh_token");
    cookie_domain = get_env_string env (codes "AUTH_COOKIE_DOMAIN") [];
    cookie_path = get_env_string env (codes "AUTH_COOKIE_PATH") (codes "/auth");
    cookie_secure = get_env_bool env (codes "AUTH_COOKIE_SECURE") false;
    cookie_http_only = get_env_bool env (codes "AUTH_COOKIE_HTTP_ONLY") false;
    cookie_same_site = get_env_string env (codes "AUTH_COOKIE_SAME_SITE") (codes "lax");
    twilio_account_sid = get_env_string env (codes "TWILIO_ACCOUNT_SID") [];
    twilio_auth_token = get_env_string env (codes "TWILIO_AUTH_TOKEN") [];
    twilio_verify_service_sid = get_env_string env (codes "TWILIO_VERIFY_SERVICE_SID") [];
    pending_signup_ttl =
        duration (get_env_int env (codes "AUTH_PENDING_SIGNUP_TTL_SECONDS") (pos 600)) 1000000000;
    otp_resend_cooldown =
        duration (get_env_int env (codes "AUTH_OTP_RESEND_COOLDOWN_SECONDS") (pos 60)) 1000000000;
    otp_max_resends = get_env_int env (codes "AUTH_OTP_MAX_RESENDS") (pos 5);
    otp_request_limit_ip = get_env_int env (codes "AUTH_OTP_REQUEST_LIMIT_IP") (pos 10);
    otp_request_limit_window =
        duration (get_env_int env (codes "AUTH_OTP_REQUEST_LIMIT_WINDOW_SECONDS") (pos 600))
          1000000000;
    otp_request_limit_mobile = get_env_int env (codes "AUTH_OTP_REQUEST_LIMIT_MOBILE") (pos 3);
    otp_verify_limit_ip = get_env_int env (codes "AUTH_OTP_VERIFY_LIMIT_IP") (pos 20);
    otp_verify_limit_window =
        duration (get_env_int env (codes "AUTH_OTP_VERIFY_LIMIT_WINDOW_SECONDS") (pos 600))
          1000000000;
    otp_verify_limit_mobile = get_env_int env (codes "AUTH_OTP_VERIFY_LIMIT_MOBILE") (pos 5);
    csrf_cookie_name = get_env_string env (codes "AUTH_CSRF_COOKIE_NAME") (codes "csrf_token");
    csrf_header_name = get_env_string env (codes "AUTH_CSRF_HEADER_NAME") (codes "X-CSRF-Token");
    csrf_cookie_path = get_env_string env (codes "AUTH_CSRF_COOKIE_PATH") (codes "/auth");
    csrf_cookie_secure = get_env_bool env (codes "AUTH_CSRF_COOKIE_SECURE") true;
    csrf_cookie_same_site = get_env_string env (codes "AUTH_CSRF_COOKIE_SAME_SITE") (codes "lax");
    google_client_id = get_env_string env (codes "GOOGLE_CLIENT_ID") [];
    google_client_secret = get_env_string env (codes "GOOGLE_CLIENT_SECRET") [];
    google_redirect_uri = get_env_string env (codes "GOOGLE_REDIRECT_URI") [];
  }

  unfoldable pub load : Configs
  unfolding load_db_config load_redis_config load_auth_config
  load = record {
    db_config = load_db_config;
    redis_config = load_redis_config;
    http = record {
      port = get_first_env_string env (codes "8080") (codes "HTTP_PORT" ∷ codes "PORT" ∷ []);
      allowed_origins = get_env_csv env (codes "HTTP_ALLOWED_ORIGINS");
    };
    auth = load_auth_config;
  }
