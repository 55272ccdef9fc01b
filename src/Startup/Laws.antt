-- ===== src/Startup/Laws.antt =====
-- A validated configuration starts the parts of the server.
use wesko_go_backend.Common.{◌≡◌, ◌<◌, refl, Option, arith}
use wesko_go_backend.Common.Int.{ℤ, pos, pos_part}
use wesko_go_backend.Common.Text.{Text}
use wesko_go_backend.Common.Exec.{ok}
use wesko_go_backend.Auth.Token.{TokenManager, new_token_manager}
use wesko_go_backend.Configs.{Configs}
use wesko_go_backend.Configs.Validate.{validate}
use wesko_go_backend.Configs.Validate.Groups.{IsPositive, IsNatural}
use wesko_go_backend.Configs.Validate.Laws.{validate_iff}
use wesko_go_backend.Startup.{token_manager_of, otp_config_of, limits_of}

of_positive : (n : ℤ) → IsPositive n → n ≡ pos (pos_part n)
of_positive n (m, e) = rw e refl

of_natural : (n : ℤ) → IsNatural n → n ≡ pos (pos_part n)
of_natural n (m, e) = rw e refl

-- What a configuration starts.
pub record Starts (c : Configs) : Type 0 where
  pub manager : TokenManager
  pub made : token_manager_of c ≡ ok manager
  pub access_ttl : c.auth.access_token_ttl ≡ pos manager.access_token_ttl
  pub refresh_ttl : c.auth.refresh_token_ttl ≡ pos manager.refresh_token_ttl
  pub lives : 0 < manager.refresh_token_ttl
  pub signup_ttl : c.auth.pending_signup_ttl ≡ pos (otp_config_of c).pending_signup_ttl
  pub cooldown : c.auth.otp_resend_cooldown ≡ pos (otp_config_of c).resend_cooldown
  pub resends : c.auth.otp_max_resends ≡ pos (otp_config_of c).max_resends
  pub request_limit : c.auth.otp_request_limit_ip ≡ pos (limits_of c).request_ip.limit
  pub request_window : c.auth.otp_request_limit_window ≡ pos (limits_of c).request_ip.window
  pub verify_limit : c.auth.otp_verify_limit_mobile ≡ pos (limits_of c).verify_mobile.limit
  pub verify_window : c.auth.otp_verify_limit_window ≡ pos (limits_of c).verify_mobile.window

-- With a validated configuration the token manager is made, with its two lifetimes, the one of
-- refresh tokens positive, and the lifetime of signups, the cooldown, the count of resends, and the
-- limits and windows of requests by address and of codes by mobile are the configured ones.
pub Starts-validate :
    (split_host_port : Text → Option (Text × Text)) (c : Configs)
    → validate split_host_port c ≡ ok tt
    → Starts c
unfolding token_manager_of new_token_manager otp_config_of limits_of
Starts-validate split_host_port c h =
    let auth = ((validate_iff split_host_port c).0 h).auth in
    record {
      manager = record {
        issuer = c.auth.issuer;
        jwe_key = c.auth.jwe_key;
        access_token_ttl = pos_part c.auth.access_token_ttl;
        refresh_token_ttl = pos_part c.auth.refresh_token_ttl;
      };
      made = ground (arith, auth.key_size);
      access_ttl = of_positive _ auth.access_token_ttl;
      refresh_ttl = of_positive _ auth.refresh_token_ttl;
      lives = let (m, e) = auth.refresh_token_ttl in ground arith;
      signup_ttl = of_positive _ auth.pending_signup_ttl;
      cooldown = of_natural _ auth.otp_resend_cooldown;
      resends = of_natural _ auth.otp_max_resends;
      request_limit = of_natural _ auth.otp_request_limit_ip;
      request_window = of_natural _ auth.otp_request_limit_window;
      verify_limit = of_natural _ auth.otp_verify_limit_mobile;
      verify_window = of_natural _ auth.otp_verify_limit_window;
    }
