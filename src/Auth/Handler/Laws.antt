-- ===== src/Auth/Handler/Laws.antt =====
-- Who passes the rate limit and the CSRF check.
use wesko_go_backend.Common.{
  ◌≡◌, ◌≢◌, ◌↔◌, ◌⊎◌, inl, inr, true, false, Option, none, some, ◌++◌, arith, is_empty,
}
use wesko_go_backend.Common.Text.{Text, codes, eq_iff, trim_space}
use wesko_go_backend.Common.Text.Trim.{trim_space_idem}
use wesko_go_backend.Common.Exec.{ok, err, Call-cases, Result-cases}
use wesko_go_backend.Auth.Errors.{Error}
use wesko_go_backend.Auth.Models.{RateLimitRule}
use wesko_go_backend.Auth.Ports.{RateLimiter}
use wesko_go_backend.Auth.Mobile.{normalize_indian_mobile}
use wesko_go_backend.Auth.Handler.{ask, enforce_rate_limit, require_csrf_from_web}

module _ {S : Type 0} (limiter : RateLimiter S) (action ip mobile : Text)
    (ip_rule mobile_rule : RateLimitRule) (w : S) where
  -- A request that the limiter lets pass: the address of the client is within its limit, and so is
  -- the mobile, if it is one.
  pub data Passes (t : S) : Type 0 where
    no_mobile :
        (e : Error)
        → limiter.allow (codes "otp:" ++ action ++ codes ":ip:" ++ ip) ip_rule w ≡ (ok true, t)
        → normalize_indian_mobile mobile ≡ err e
        → Passes t
    with_mobile :
        (u : S) (normalized : Text)
        → limiter.allow (codes "otp:" ++ action ++ codes ":ip:" ++ ip) ip_rule w ≡ (ok true, u)
        → normalize_indian_mobile mobile ≡ ok normalized
        → limiter.allow (codes "otp:" ++ action ++ codes ":mobile:" ++ normalized) mobile_rule u
          ≡ (ok true, t)
        → Passes t

  enforce_sound :
      {t : S}
      → enforce_rate_limit (some limiter) action ip mobile ip_rule mobile_rule w ≡ (ok tt, t)
      → Passes t
  unfolding enforce_rate_limit ask
  enforce_sound {t} h =
      elim (Call-cases (limiter.allow (codes "otp:" ++ action ++ codes ":ip:" ++ ip) ip_rule w)) [
        | inr (e, u, q) ↦ ground arith
        | inl (false, u, q) ↦ ground arith
        | inl (true, u, q) ↦ elim (Result-cases (normalize_indian_mobile mobile)) [
          | inr (e, n) ↦ no_mobile e (ground arith) n
          | inl (normalized, n) ↦
              elim (Call-cases (
                limiter.allow (codes "otp:" ++ action ++ codes ":mobile:" ++ normalized) mobile_rule
                  u)) [
                    | inr (e, v, k) ↦ ground arith
                    | inl (false, v, k) ↦ ground arith
                    | inl (true, v, k) ↦ with_mobile u normalized q n (ground arith)
                  ]
        ]
      ]

  enforce_complete :
      {t : S}
      → Passes t
      → enforce_rate_limit (some limiter) action ip mobile ip_rule mobile_rule w ≡ (ok tt, t)
  unfolding enforce_rate_limit ask
  enforce_complete (no_mobile e q n) = ground (arith, q, n)
  enforce_complete (with_mobile u normalized q n k) = ground (arith, q, n, k)

  -- Where there is a limiter, a request for a code, or with one, passes the rate limit exactly if
  -- the limiter allows the address of the client and then, where the mobile normalises, the
  -- normalised mobile.
  pub enforce_rate_limit_iff :
      (t : S)
      → (enforce_rate_limit (some limiter) action ip mobile ip_rule mobile_rule w ≡ (ok tt, t))
        ↔ Passes t
  enforce_rate_limit_iff t = (enforce_sound, enforce_complete)

-- The CSRF check lets a request pass exactly if it does not come from the web, or its trimmed
-- header is not empty and is the cookie.
pub require_csrf_from_web_iff :
    (client_type : Text) (cookie : Option Text) (header : Text)
    → (require_csrf_from_web client_type cookie header ≡ ok tt) ↔ (
        (client_type ≢ codes "web")
        ⊎ ((cookie ≡ some (trim_space header)) × (is_empty (trim_space header) ≡ false)))
unfolding require_csrf_from_web
require_csrf_from_web_iff client_type none header = ground (arith, eq_iff client_type (codes "web"))
require_csrf_from_web_iff client_type (some token) header = ground (
  arith,
  eq_iff client_type (codes "web"),
  eq_iff (trim_space header) token,
  trim_space_idem header,
)
