-- ===== src/Configs/Validate/Groups.antt =====
-- The groups of checks of a configuration, as conditions.
use wesko_go_backend.Common.{
  ℕ, suc, ◌≡◌, ◌≢◌, ◌↔◌, refl, Bool, true, false, not, List, [], ◌∷◌, ◌++◌, All, arith, ◌==◌,
}
use wesko_go_backend.Common.Int.{ℤ, pos, negsuc, ltb_ℤ}
use wesko_go_backend.Common.Text.{empty_iff, Text, byte_len}
use wesko_go_backend.Common.Exec.{ok}
use wesko_go_backend.Configs.{Configs}
use wesko_go_backend.Configs.Validate.{first_error, db_checks, auth_checks, redis_checks}

abbrev pub IsGiven : Text → Type 0
IsGiven s = s ≢ []

abbrev pub IsPositive : ℤ → Type 0
IsPositive n = (m : ℕ) × (n ≡ pos (suc m))

abbrev pub IsNatural : ℤ → Type 0
IsNatural n = (m : ℕ) × (n ≡ pos m)

above_zero_iff : (n : ℤ) → (not (ltb_ℤ (pos 0) n) ≡ false) ↔ IsPositive n
above_zero_iff (pos ℕ.zero) = (λ h. absurd (ground arith), λ (m, e). absurd (ground arith))
above_zero_iff (pos (suc n)) = (λ h. (n, refl), λ h. ground arith)
above_zero_iff (negsuc n) = (λ h. absurd (ground arith), λ (m, e). absurd (ground arith))

from_zero_iff : (n : ℤ) → (ltb_ℤ n (pos 0) ≡ false) ↔ IsNatural n
from_zero_iff (pos n) = (λ h. (n, refl), λ h. ground arith)
from_zero_iff (negsuc n) = (λ h. absurd (ground arith), λ (m, e). absurd (ground arith))

key_iff : (s : Text) → (not (byte_len s == 32) ≡ false) ↔ (byte_len s ≡ 32)
key_iff s = (λ h. ground arith, λ h. ground arith)

-- A check that does not fail.
abbrev pub IsPassed : Bool × Text → Type 0
IsPassed (fails, message) = fails ≡ false

pub first_error_sound :
    (checks : List (Bool × Text)) → first_error checks ≡ ok tt → All IsPassed checks
unfolding first_error
first_error_sound [] h = tt
first_error_sound ((true, m) ∷ rest) h = absurd (ground arith)
first_error_sound ((false, m) ∷ rest) h = (refl, first_error_sound rest h)

pub first_error_complete :
    (checks : List (Bool × Text)) → All IsPassed checks → first_error checks ≡ ok tt
unfolding first_error
first_error_complete [] h = refl
first_error_complete ((b, m) ∷ rest) (p, h) = rw p (first_error_complete rest h)

pub All-split :
    (xs ys : List (Bool × Text)) → All IsPassed (xs ++ ys) → All IsPassed xs × All IsPassed ys
All-split [] ys h = (tt, h)
All-split (x ∷ xs) ys (p, h) = let (a, b) = All-split xs ys h in ((p, a), b)

-- The database of a valid configuration.
pub record DbIsValid (c : Configs) : Type 0 where
  pub host : IsGiven c.db_config.host
  pub port : IsGiven c.db_config.port
  pub user : IsGiven c.db_config.user
  pub db_name : IsGiven c.db_config.db_name
  pub password : IsGiven c.db_config.password

pub db_checks_iff : (c : Configs) → All IsPassed (db_checks c) ↔ DbIsValid c
unfolding db_checks
db_checks_iff c = (
  λ p. record {
    host = (empty_iff c.db_config.host).0 p.0;
    port = (empty_iff c.db_config.port).0 p.1.0;
    user = (empty_iff c.db_config.user).0 p.1.1.0;
    db_name = (empty_iff c.db_config.db_name).0 p.1.1.1.0;
    password = (empty_iff c.db_config.password).0 p.1.1.1.1.0;
  },
  λ r. (
    (empty_iff c.db_config.host).1 r.host,
    (
      (empty_iff c.db_config.port).1 r.port,
      (
        (empty_iff c.db_config.user).1 r.user,
        (
          (empty_iff c.db_config.db_name).1 r.db_name,
          ((empty_iff c.db_config.password).1 r.password, tt),
        ),
      ),
    ),
  ),
)

-- The accounts of a valid configuration, and its port.
pub record AuthIsValid (c : Configs) : Type 0 where
  pub http_port : IsGiven c.http.port
  pub issuer : IsGiven c.auth.issuer
  pub key : IsGiven c.auth.jwe_key
  pub key_size : byte_len c.auth.jwe_key ≡ 32
  pub access_token_ttl : IsPositive c.auth.access_token_ttl
  pub refresh_token_ttl : IsPositive c.auth.refresh_token_ttl
  pub cookie_name : IsGiven c.auth.cookie_name
  pub cookie_path : IsGiven c.auth.cookie_path
  pub csrf_cookie_name : IsGiven c.auth.csrf_cookie_name
  pub csrf_header_name : IsGiven c.auth.csrf_header_name
  pub csrf_cookie_path : IsGiven c.auth.csrf_cookie_path
  pub pending_signup_ttl : IsPositive c.auth.pending_signup_ttl
  pub otp_resend_cooldown : IsNatural c.auth.otp_resend_cooldown
  pub otp_max_resends : IsNatural c.auth.otp_max_resends
  pub otp_request_limit_ip : IsNatural c.auth.otp_request_limit_ip
  pub otp_request_limit_window : IsNatural c.auth.otp_request_limit_window
  pub otp_request_limit_mobile : IsNatural c.auth.otp_request_limit_mobile
  pub otp_verify_limit_ip : IsNatural c.auth.otp_verify_limit_ip
  pub otp_verify_limit_window : IsNatural c.auth.otp_verify_limit_window
  pub otp_verify_limit_mobile : IsNatural c.auth.otp_verify_limit_mobile

pub auth_checks_iff : (c : Configs) → All IsPassed (auth_checks c) ↔ AuthIsValid c
unfolding auth_checks
auth_checks_iff c = (
  λ p. record {
    http_port = (empty_iff c.http.port).0 p.0;
    issuer = (empty_iff c.auth.issuer).0 p.1.0;
    key = (empty_iff c.auth.jwe_key).0 p.1.1.0;
    key_size = (key_iff c.auth.jwe_key).0 p.1.1.1.0;
    access_token_ttl = (above_zero_iff c.auth.access_token_ttl).0 p.1.1.1.1.0;
    refresh_token_ttl = (above_zero_iff c.auth.refresh_token_ttl).0 p.1.1.1.1.1.0;
    cookie_name = (empty_iff c.auth.cookie_name).0 p.1.1.1.1.1.1.0;
    cookie_path = (empty_iff c.auth.cookie_path).0 p.1.1.1.1.1.1.1.0;
    csrf_cookie_name = (empty_iff c.auth.csrf_cookie_name).0 p.1.1.1.1.1.1.1.1.0;
    csrf_header_name = (empty_iff c.auth.csrf_header_name).0 p.1.1.1.1.1.1.1.1.1.0;
    csrf_cookie_path = (empty_iff c.auth.csrf_cookie_path).0 p.1.1.1.1.1.1.1.1.1.1.0;
    pending_signup_ttl = (above_zero_iff c.auth.pending_signup_ttl).0 p.1.1.1.1.1.1.1.1.1.1.1.0;
    otp_resend_cooldown = (from_zero_iff c.auth.otp_resend_cooldown).0 p.1.1.1.1.1.1.1.1.1.1.1.1.0;
    otp_max_resends = (from_zero_iff c.auth.otp_max_resends).0 p.1.1.1.1.1.1.1.1.1.1.1.1.1.0;
    otp_request_limit_ip =
        (from_zero_iff c.auth.otp_request_limit_ip).0 p.1.1.1.1.1.1.1.1.1.1.1.1.1.1.0;
    otp_request_limit_window =
        (from_zero_iff c.auth.otp_request_limit_window).0 p.1.1.1.1.1.1.1.1.1.1.1.1.1.1.1.0;
    otp_request_limit_mobile =
        (from_zero_iff c.auth.otp_request_limit_mobile).0 p.1.1.1.1.1.1.1.1.1.1.1.1.1.1.1.1.0;
    otp_verify_limit_ip =
        (from_zero_iff c.auth.otp_verify_limit_ip).0 p.1.1.1.1.1.1.1.1.1.1.1.1.1.1.1.1.1.0;
    otp_verify_limit_window =
        (from_zero_iff c.auth.otp_verify_limit_window).0 p.1.1.1.1.1.1.1.1.1.1.1.1.1.1.1.1.1.1.0;
    otp_verify_limit_mobile =
        (from_zero_iff c.auth.otp_verify_limit_mobile).0 p.1.1.1.1.1.1.1.1.1.1.1.1.1.1.1.1.1.1.1.0;
  },
  λ r. (
    (empty_iff c.http.port).1 r.http_port,
    (
      (empty_iff c.auth.issuer).1 r.issuer,
      (
        (empty_iff c.auth.jwe_key).1 r.key,
        (
          (key_iff c.auth.jwe_key).1 r.key_size,
          (
            (above_zero_iff c.auth.access_token_ttl).1 r.access_token_ttl,
            (
              (above_zero_iff c.auth.refresh_token_ttl).1 r.refresh_token_ttl,
              (
                (empty_iff c.auth.cookie_name).1 r.cookie_name,
                (
                  (empty_iff c.auth.cookie_path).1 r.cookie_path,
                  (
                    (empty_iff c.auth.csrf_cookie_name).1 r.csrf_cookie_name,
                    (
                      (empty_iff c.auth.csrf_header_name).1 r.csrf_header_name,
                      (
                        (empty_iff c.auth.csrf_cookie_path).1 r.csrf_cookie_path,
                        (
                          (above_zero_iff c.auth.pending_signup_ttl).1 r.pending_signup_ttl,
                          (
                            (from_zero_iff c.auth.otp_resend_cooldown).1 r.otp_resend_cooldown,
                            (
                              (from_zero_iff c.auth.otp_max_resends).1 r.otp_max_resends,
                              (
                                (from_zero_iff c.auth.otp_request_limit_ip).1
                                    r.otp_request_limit_ip,
                                (
                                  (from_zero_iff c.auth.otp_request_limit_window).1
                                      r.otp_request_limit_window,
                                  (
                                    (from_zero_iff c.auth.otp_request_limit_mobile).1
                                        r.otp_request_limit_mobile,
                                    (
                                      (from_zero_iff c.auth.otp_verify_limit_ip).1
                                          r.otp_verify_limit_ip,
                                      (
                                        (from_zero_iff c.auth.otp_verify_limit_window).1
                                            r.otp_verify_limit_window,
                                        (
                                          (from_zero_iff c.auth.otp_verify_limit_mobile).1
                                              r.otp_verify_limit_mobile,
                                          tt,
                                        ),
                                      ),
                                    ),
                                  ),
                                ),
                              ),
                            ),
                          ),
                        ),
                      ),
                    ),
                  ),
                ),
              ),
            ),
          ),
        ),
      ),
    ),
  ),
)

-- The redis server of a valid configuration that enables one.
pub record RedisIsValid (c : Configs) : Type 0 where
  pub addr : IsGiven c.redis_config.addr
  pub cache_ttl : IsPositive c.redis_config.cache_ttl
  pub dial_timeout : IsPositive c.redis_config.dial_timeout
  pub read_timeout : IsPositive c.redis_config.read_timeout
  pub write_timeout : IsPositive c.redis_config.write_timeout
  pub pool_timeout : IsPositive c.redis_config.pool_timeout

pub redis_checks_iff : (c : Configs) → All IsPassed (redis_checks c) ↔ RedisIsValid c
unfolding redis_checks
redis_checks_iff c = (
  λ p. record {
    addr = (empty_iff c.redis_config.addr).0 p.0;
    cache_ttl = (above_zero_iff c.redis_config.cache_ttl).0 p.1.0;
    dial_timeout = (above_zero_iff c.redis_config.dial_timeout).0 p.1.1.0;
    read_timeout = (above_zero_iff c.redis_config.read_timeout).0 p.1.1.1.0;
    write_timeout = (above_zero_iff c.redis_config.write_timeout).0 p.1.1.1.1.0;
    pool_timeout = (above_zero_iff c.redis_config.pool_timeout).0 p.1.1.1.1.1.0;
  },
  λ r. (
    (empty_iff c.redis_config.addr).1 r.addr,
    (
      (above_zero_iff c.redis_config.cache_ttl).1 r.cache_ttl,
      (
        (above_zero_iff c.redis_config.dial_timeout).1 r.dial_timeout,
        (
          (above_zero_iff c.redis_config.read_timeout).1 r.read_timeout,
          (
            (above_zero_iff c.redis_config.write_timeout).1 r.write_timeout,
            ((above_zero_iff c.redis_config.pool_timeout).1 r.pool_timeout, tt),
          ),
        ),
      ),
    ),
  ),
)
