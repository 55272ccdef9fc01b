-- ===== src/Memory/RateLimit.antt =====
-- RateLimiter of cache/memory/stores.go: a window that begins with its first call.
pub mod Laws
pub mod Readmission
use wesko_go_backend.Common.{
  ℕ, ◌+◌, ◌≡◌, Bool, true, false, ◌||◌, Option, none, some, leb, ltb, ◌==◌, if◌then◌else◌,
}
use wesko_go_backend.Common.Text.{Text, eq}
use wesko_go_backend.Common.Map.{Map, empty, insert}
use wesko_go_backend.Auth.Models.{Time, RateLimitRule}

pub record RateLimitWindow : Type 0 where
  pub count : ℕ
  pub expires_at : Time

pub record RateLimiter : Type 0 where
  pub windows : Map RateLimitWindow

abbrev pub new_rate_limiter : RateLimiter
new_rate_limiter = record { windows = empty }

-- The zero value of a missing entry.
abbrev pub window_or_zero : Option RateLimitWindow → RateLimitWindow
window_or_zero none = record { count = 0; expires_at = 0 }
window_or_zero (some window) = window

-- The window that a call at `now` counts in, before it is counted.
unfoldable pub current : Time → RateLimitRule → RateLimitWindow → RateLimitWindow
current now rule window =
    if window.expires_at == 0 || ltb window.expires_at now
    then record { count = 0; expires_at = now + rule.window }
    else window

unfoldable pub counted : RateLimitWindow → RateLimitWindow
counted window = record window { count = window.count + 1 }

-- A rule without a limit or a window allows all and keeps no count.
unfoldable pub allow : Time → Text → RateLimitRule → RateLimiter → Bool × RateLimiter
allow now key rule l =
    if rule.limit == 0 || rule.window == 0
    then (true, l)
    else let window = counted (current now rule (window_or_zero (l.windows key))) in
      (leb window.count rule.limit, record { windows = insert key window l.windows })
