-- ===== src/Redis/Keys.antt =====
-- The keys of cache/redis/. `token_key` is the hexadecimal SHA-256 of a token.
pub mod Laws
use wesko_go_backend.Common.{◌++◌}
use wesko_go_backend.Common.Text.{Text, codes}

-- The keys of the store of pending signups: signupKey, usernameKey, emailKey, mobileIndexKey.
unfoldable pub signup_key : Text → Text
signup_key mobile = codes "auth:pending_signup:mobile:" ++ mobile

unfoldable pub username_key : Text → Text
username_key username = codes "auth:pending_signup:username:" ++ username

unfoldable pub email_key : Text → Text
email_key email = codes "auth:pending_signup:email:" ++ email

unfoldable pub mobile_index_key : Text → Text
mobile_index_key mobile = codes "auth:pending_signup:index_mobile:" ++ mobile

-- The method `key` of the store of code states.
unfoldable pub otp_state_key : Text → Text
otp_state_key key = codes "auth:otp_state:" ++ key

-- The method `key` of the store of refresh tokens.
unfoldable pub refresh_key : (Text → Text) → Text → Text
refresh_key token_key token = codes "auth:refresh:" ++ token_key token

-- cacheKey
unfoldable pub cache_key : Text → Text
cache_key username = codes "auth:user:" ++ username

-- The key of a call of the limiter.
unfoldable pub limit_key : Text → Text
limit_key key = codes "auth:rate_limit:" ++ key
