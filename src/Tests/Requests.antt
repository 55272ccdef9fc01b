-- ===== src/Tests/Requests.antt =====
-- The rate limit and the CSRF check at concrete requests.
use wesko_go_backend.Common.Text.{eq}
use wesko_go_backend.Auth.Mobile.{finish}
use wesko_go_backend.Common.Text.{byte_len}
use wesko_go_backend.Auth.Mobile.{strip_prefix}
use wesko_go_backend.Common.Text.{is_digit}
use wesko_go_backend.Auth.Mobile.{step}
use wesko_go_backend.Auth.Mobile.{scan}
use wesko_go_backend.Auth.Mobile.{normalize_indian_mobile}
use wesko_go_backend.Common.{ℕ, ◌≡◌, refl, some, ◌+◌, leb}
use wesko_go_backend.Common.Text.{codes, trim_space}
use wesko_go_backend.Common.Exec.{ok}
use wesko_go_backend.Auth.Models.{RateLimitRule}
use wesko_go_backend.Auth.Ports.{RateLimiter}
use wesko_go_backend.Auth.Handler.{enforce_rate_limit, require_csrf_from_web}
use wesko_go_backend.Auth.Handler.Laws.{Passes, enforce_rate_limit_iff}

-- A limiter that counts all its calls.
abbrev counting : RateLimiter ℕ
counting = record { allow = λ key rule n. (ok (leb (n + 1) rule.limit), n + 1) }

abbrev rule : RateLimitRule
rule = record { limit = 2; window = 10 }

enforce_run :
    enforce_rate_limit
      (some counting)
      (codes "request")
      (codes "10.0.0.1")
      (codes "9876543210")
      rule
      rule
      0
    ≡ (ok tt, 2)
unfolding enforce_rate_limit normalize_indian_mobile trim_space scan step is_digit strip_prefix
    byte_len finish
enforce_run = refl

enforce_rate_limit_iff_example :
    Passes counting (codes "request") (codes "10.0.0.1") (codes "9876543210") rule rule 0 2
enforce_rate_limit_iff_example =
    (enforce_rate_limit_iff counting (codes "request") (codes "10.0.0.1") (codes "9876543210") rule
        rule 0 2).0
      enforce_run

csrf_run : require_csrf_from_web (codes "web") (some (codes "abc")) (codes " abc ") ≡ ok tt
unfolding require_csrf_from_web eq trim_space
csrf_run = refl
