-- ===== src/Auth/Errors.antt =====
-- auth/errors.go: the sentinel errors. `other` is any error that is none of these, such as one of
-- the database or of bcrypt.
use wesko_go_backend.Common.{ℕ, ◌≡◌, refl, Bool, true, false}

pub data Error : Type 0 where
  invalid_credentials invalid_username invalid_password invalid_email invalid_mobile : Error
  invalid_otp_code invalid_client_type invalid_mobile_format : Error
  user_not_found user_already_exists : Error
  username_already_exists email_already_exists mobile_already_exists : Error
  signup_verification_pending otp_resend_too_soon otp_resend_limit_reached : Error
  otp_too_many_requests pending_signup_expired mobile_not_verified otp_provider_unavailable : Error
  cache_miss unauthorized invalid_token token_expired invalid_jwe_key : Error
  invalid_refresh_token profile_already_complete : Error
  other : ℕ → Error

-- errors.Is(err, ErrUserNotFound)
unfoldable pub is_user_not_found : Error → Bool
is_user_not_found user_not_found = true
is_user_not_found _ = false

-- isCacheMiss
unfoldable pub is_cache_miss : Error → Bool
is_cache_miss cache_miss = true
is_cache_miss _ = false

pub is_cache_miss_sound : (e : Error) → is_cache_miss e ≡ true → e ≡ cache_miss
unfolding is_cache_miss
is_cache_miss_sound cache_miss h = refl
is_cache_miss_sound _ h = cc

pub is_user_not_found_sound : (e : Error) → is_user_not_found e ≡ true → e ≡ user_not_found
unfolding is_user_not_found
is_user_not_found_sound user_not_found h = refl
is_user_not_found_sound _ h = cc

pub is_cache_miss_self : is_cache_miss cache_miss ≡ true
unfolding is_cache_miss
is_cache_miss_self = refl

pub is_user_not_found_self : is_user_not_found user_not_found ≡ true
unfolding is_user_not_found
is_user_not_found_self = refl
