-- ===== src/Memory/RateLimit/Laws.antt =====
-- The limiter admits the first calls of a window up to the limit, and no more.
use Prim.Native.Nat.{min}
use wesko_go_backend.Common.{
  ℕ, suc, ◌+◌, ◌-◌, ◌≤◌, ◌<◌, ◌≡◌, ◌≢◌, inl, inr, Bool, true, false, some, List, [], ◌∷◌, arith,
  leb, leb→le, ltb, length, All, Bool-cases,
}
use wesko_go_backend.Common.Text.{Text, eq_refl, eq_iff}
use wesko_go_backend.Auth.Models.{Time, RateLimitRule}
use wesko_go_backend.Memory.RateLimit.{
  RateLimitWindow, RateLimiter, window_or_zero, current, counted, allow,
}

-- Calls for one key at given times, and how many of them are admitted.
run_calls : Text → RateLimitRule → List Time → RateLimiter → List Bool
run_calls key rule [] l = []
run_calls key rule (now ∷ later) l =
    let (allowed, l') = allow now key rule l in allowed ∷ run_calls key rule later l'

abbrev pub admitted : List Bool → ℕ
admitted [] = 0
admitted (true ∷ bs) = suc (admitted bs)
admitted (false ∷ bs) = admitted bs

pub admitted_calls : Text → RateLimitRule → List Time → RateLimiter → ℕ
unfolding run_calls
admitted_calls key rule times l = admitted (run_calls key rule times l)

-- A rule that limits.
abbrev pub Limits : RateLimitRule → Type 0
Limits rule = (0 < rule.limit) × (0 < rule.window)

-- One more call in a window that has counted `c`.
admitted_step :
    (c limit n : ℕ) (bs : List Bool)
    → admitted bs ≡ min (limit - (c + 1)) n
    → admitted (leb (c + 1) limit ∷ bs) ≡ min (limit - c) (suc n)
admitted_step c limit n bs h = elim (Bool-cases (leb (c + 1) limit)) [
  | inl fits ↦ rw fits (omega (arith, leb→le (c + 1) limit fits))
  | inr full ↦ rw full (let le : limit ≤ c = ground arith in omega arith)
]

module _ (key : Text) (rule : RateLimitRule) (limits : Limits rule) where
  allow_in_window :
      (now : Time) (l : RateLimiter) (window : RateLimitWindow)
      → l.windows key ≡ some window
      → 0 < window.expires_at
      → now ≤ window.expires_at
      → ((allow now key rule l).0 ≡ leb (window.count + 1) rule.limit)
        × ((allow now key rule l).1.windows key ≡ some (counted window))
  unfolding allow current counted
  allow_in_window now l window h pos live = ground (arith, eq_refl key)

  admitted_in_window :
      (times : List Time) (l : RateLimiter) (window : RateLimitWindow)
      → l.windows key ≡ some window
      → 0 < window.expires_at
      → All (λ t. t ≤ window.expires_at) times
      → admitted (run_calls key rule times l) ≡ min (rule.limit - window.count) (length times)
  unfolding run_calls counted
  admitted_in_window [] l window h pos live = omega arith
  admitted_in_window (now ∷ later) l window h pos (live, lives) =
      let (answer, next) = allow_in_window now l window h pos live in
      let rest =
        admitted_in_window later (allow now key rule l).1 (counted window) next pos lives in
      rw answer (admitted_step window.count rule.limit (length later) _ rest)

  -- A call that opens a window: there is none for the key, or it has expired.
  allow_opens :
      (now : Time) (l : RateLimiter)
      → (current now rule (window_or_zero (l.windows key))).count ≡ 0
      → (current now rule (window_or_zero (l.windows key))).expires_at ≡ now + rule.window
      → ((allow now key rule l).0 ≡ true)
        × ((allow now key rule l).1.windows key
            ≡ some (record { count = 1; expires_at = now + rule.window }))
  unfolding allow counted
  allow_opens now l zero_count ends = ground (arith, eq_refl key)

-- Of the calls for one key that fall in one window, the first of which opens it, as many are
-- admitted as the smaller of the limit and their number: the window begins where the limiter has no
-- window for the key or an expired one, at a time that is not zero, and ends the length of the
-- window later; limit and length are not zero.
pub admitted_calls-eq-min :
    (key : Text) (rule : RateLimitRule) (now : Time) (later : List Time) (l : RateLimiter)
    → Limits rule
    → ltb (window_or_zero (l.windows key)).expires_at now ≡ true
    → All (λ t. t ≤ now + rule.window) later
    → admitted_calls key rule (now ∷ later) l ≡ min rule.limit (length (now ∷ later))
unfolding admitted_calls run_calls
admitted_calls-eq-min key rule now later l limits expired inside =
    let (answer, next) =
      allow_opens key rule limits now l (unfold current in ground arith)
        (unfold current in ground arith) in
    let rest =
      admitted_in_window key rule limits later (allow now key rule l).1
        (record { count = 1; expires_at = now + rule.window }) next (omega arith) inside in
    rw answer (let (_, w) = limits in omega (arith, rest))

-- A call of the limiter for one key leaves the windows of the other keys alone.
pub windows-allow_ne :
    (now : Time) (key other : Text) (rule : RateLimitRule) (l : RateLimiter)
    → key ≢ other
    → (allow now key rule l).1.windows other ≡ l.windows other
unfolding allow
windows-allow_ne now key other rule l ne = ground (arith, eq_iff key other)
