-- ===== src/Memory/RateLimit/Readmission.antt =====
-- The limiter locks no client out for good.
use wesko_go_backend.Common.{◌+◌, ◌≤◌, ◌<◌, ◌≡◌, true, List, [], ◌∷◌, arith, All}
use wesko_go_backend.Common.Text.{Text, eq_refl}
use wesko_go_backend.Auth.Models.{Time, RateLimitRule}
use wesko_go_backend.Memory.RateLimit.{RateLimiter, window_or_zero, current, counted, allow}

module _ (key : Text) (rule : RateLimitRule) where
  -- The limiter after calls for the key, the last one first.
  pub after_calls : List Time → RateLimiter → RateLimiter
  after_calls [] l = l
  after_calls (now ∷ earlier) l = (allow now key rule (after_calls earlier l)).1

  -- When the window of the key ends.
  abbrev pub ends : RateLimiter → Time
  ends l = (window_or_zero (l.windows key)).expires_at

  ends-allow :
      (now last : Time) (l : RateLimiter)
      → now ≤ last
      → ends l ≤ last + rule.window
      → ends (allow now key rule l).1 ≤ last + rule.window
  unfolding allow current counted
  ends-allow now last l early bounded = ground (arith, eq_refl key)

  ends-after_calls :
      (times : List Time) (last : Time) (l : RateLimiter)
      → All (λ t. t ≤ last) times
      → ends l ≤ last + rule.window
      → ends (after_calls times l) ≤ last + rule.window
  unfolding after_calls
  ends-after_calls [] last l h bounded = bounded
  ends-after_calls (now ∷ times) last l (early, h) bounded =
      ends-allow now last (after_calls times l) early (ends-after_calls times last l h bounded)

  -- After any calls for a key, admitted or not, a call that comes more than the length of a window
  -- after the last of them is admitted, if the window that the limiter had for the key before them
  -- ends no later than one that the last of them would open, and the limit is not zero.
  pub allow-after_calls :
      (times : List Time) (last now : Time) (l : RateLimiter)
      → All (λ t. t ≤ last) times
      → ends l ≤ last + rule.window
      → 0 < rule.limit
      → last + rule.window < now
      → (allow now key rule (after_calls times l)).0 ≡ true
  unfolding allow current counted
  allow-after_calls times last now l h bounded limited late =
      let bound = ends-after_calls times last l h bounded in ground arith
