-- ===== src/Redis/RateLimit.antt =====
-- cache/redis/rate_limiter.go
use wesko_go_backend.Common.{true, Bool, ◌||◌, ◌==◌, leb, if◌then◌else◌}
use wesko_go_backend.Common.Text.{Text}
use wesko_go_backend.Common.Exec.{pure, ◌>>=◌, ◌>>◌}
use wesko_go_backend.Auth.Models.{RateLimitRule}
use wesko_go_backend.Auth.Ports
use wesko_go_backend.Auth.Ports.{Call}
use wesko_go_backend.Redis.Client.{Client, raw, rescue}
use wesko_go_backend.Redis.Keys.{limit_key}

module _ {S : Type 0} (c : Client S) where
  -- A rule without a limit or a window allows all and makes no call.
  unfoldable pub allow : Text → RateLimitRule → Call S Bool
  allow key rule = if rule.limit == 0 || rule.window == 0 then pure true else do
    count ← rescue raw (c.incr (limit_key key))
    if count == 1 then rescue raw (c.expire (limit_key key) rule.window) else pure tt
    pure (leb count rule.limit)

  -- NewRateLimiter, as a RateLimiter.
  abbrev pub rate_limiter : Ports.RateLimiter S
  rate_limiter = record { allow = allow }
