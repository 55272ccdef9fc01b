-- ===== src/Auth/Models.antt =====
-- auth/models.go, auth/requests.go, auth/tokens.go and the records of auth/otp.go and
-- auth/ratelimit.go. A time is the number of nanoseconds since Go's zero time, so 0 is the zero
-- time; a duration is a number of nanoseconds. configs.Validate refuses negative durations and
-- limits, so both are natural numbers.
use wesko_go_backend.Common.{ℕ, Bool}
use wesko_go_backend.Common.Text.{Text, codes}

abbrev pub Time : Type 0
Time = ℕ

abbrev pub Duration : Type 0
Duration = ℕ

abbrev pub Role : Type 0
Role = Text

abbrev pub role_admin : Role
role_admin = codes "admin"

abbrev pub role_customer : Role
role_customer = codes "customer"

pub record User : Type 0 where
  pub id : ℕ
  pub username : Text
  pub email : Text
  pub mobile : Text
  pub mobile_verified : Bool
  pub role : Role
  pub is_profile_complete : Bool
  pub created_at : Time
  pub updated_at : Time

-- The field `Data` is left out: nothing in the repository reads or writes it.
pub record SsoAccount : Type 0 where
  pub user_id : ℕ
  pub provider : Text
  pub provider_id : Text
  pub email : Text

pub record GoogleConfig : Type 0 where
  pub client_id : Text
  pub client_secret : Text
  pub redirect_uri : Text

pub record RegisterRequest : Type 0 where
  pub username : Text
  pub password : Text
  pub email : Text
  pub mobile : Text
  pub client_type : Text

pub record PasswordLoginRequest : Type 0 where
  pub username : Text
  pub password : Text
  pub client_type : Text

pub record OtpRequest : Type 0 where
  pub mobile : Text
  pub client_type : Text

pub record OtpVerifyRequest : Type 0 where
  pub mobile : Text
  pub code : Text
  pub client_type : Text

pub record AccessClaims : Type 0 where
  pub subject : Text
  pub token_type : Text
  pub role : Text
  pub is_profile_complete : Bool
  pub issued_at : Time
  pub expires_at : Time

pub record RefreshSession : Type 0 where
  pub token_id : Text
  pub user_id : ℕ
  pub username : Text
  pub expires_at : Time

pub record TokenPair : Type 0 where
  pub access_token : Text
  pub refresh_token : Text
  pub token_type : Text
  pub access_token_expires_in : ℕ
  pub refresh_token_expires_in : ℕ

pub record PendingSignup : Type 0 where
  pub username : Text
  pub password_hash : Text
  pub email : Text
  pub mobile : Text
  pub resend_count : ℕ
  pub last_sent_at : Time
  pub expires_at : Time

pub record OtpRequestState : Type 0 where
  pub mobile : Text
  pub resend_count : ℕ
  pub last_sent_at : Time
  pub expires_at : Time

pub record OtpConfig : Type 0 where
  pub pending_signup_ttl : Duration
  pub resend_cooldown : Duration
  pub max_resends : ℕ

pub record RateLimitRule : Type 0 where
  pub limit : ℕ
  pub window : Duration

pub record OtpRateLimitConfig : Type 0 where
  pub request_ip : RateLimitRule
  pub request_mobile : RateLimitRule
  pub verify_ip : RateLimitRule
  pub verify_mobile : RateLimitRule
