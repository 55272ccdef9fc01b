-- ===== src/Auth/Ports.antt =====
-- The interfaces that the auth service is written against (auth/repository.go, auth/otp.go,
-- auth/refresh_store.go, auth/ratelimit.go), over a state `S` of the world, and what the service
-- takes from Go's library and third parties: the clock, randomness, bcrypt, JWE and Google.
use wesko_go_backend.Common.{ℕ, Bool, List}
use wesko_go_backend.Common.Text.{Text}
use wesko_go_backend.Common.Exec.{Result, ok, Exec}
use wesko_go_backend.Auth.Errors.{Error}
use wesko_go_backend.Auth.Models.{
  Time, User, SsoAccount, GoogleConfig, AccessClaims, RefreshSession, PendingSignup,
  OtpRequestState, RateLimitRule,
}

abbrev pub Call : Type 0 → Type 0 → Type 0
Call S A = Exec S Error A

pub record UserRepository (S : Type 0) : Type 0 where
  pub get_user_details_by_username : Text → Call S User
  pub get_user_by_email : Text → Call S User
  pub get_user_by_mobile : Text → Call S User
  pub get_user_by_id : ℕ → Call S User
  pub register_user : User → Text → Call S User
  pub update_user : User → Call S Unit
  pub get_password_hash_by_user_id : ℕ → Call S Text
  pub get_sso_account : Text → Text → Call S (User × Bool)
  pub create_sso_user : User → SsoAccount → Call S User
  pub link_sso_account : ℕ → SsoAccount → Call S Unit

pub record UserCache (S : Type 0) : Type 0 where
  pub get_user : Text → Call S User
  pub set_user : User → Call S Unit
  pub delete_user : Text → Call S Unit

pub record OtpProvider (S : Type 0) : Type 0 where
  pub send_verification : Text → Call S Unit
  pub check_verification : Text → Text → Call S Bool

pub record PendingSignupStore (S : Type 0) : Type 0 where
  pub save : PendingSignup → Call S Unit
  pub get_by_mobile : Text → Call S PendingSignup
  pub delete_by_mobile : Text → Call S Unit
  pub get_mobile_by_username : Text → Call S Text
  pub get_mobile_by_email : Text → Call S Text
  pub get_mobile_by_mobile : Text → Call S Text

pub record OtpRequestStateStore (S : Type 0) : Type 0 where
  pub save : Text → OtpRequestState → Call S Unit
  pub get : Text → Call S OtpRequestState
  pub delete : Text → Call S Unit

pub record RefreshTokenStore (S : Type 0) : Type 0 where
  pub save : Text → RefreshSession → Call S Unit
  pub get : Text → Call S RefreshSession
  pub delete : Text → Call S Unit

pub record RateLimiter (S : Type 0) : Type 0 where
  pub allow : Text → RateLimitRule → Call S Bool

-- What Google's user info holds.
pub record UserInfo : Type 0 where
  pub id : Text
  pub email : Text

-- Code that is not the repository's: `now` is time.Now, `read_random` fills a slice by crypto/rand,
-- `generate_from_password` and `compare_hash_and_password` are bcrypt's, `seal` and `unseal` are
-- the JSON and JWE steps of TokenManager.encrypt and decrypt, `exchange` and `user_info` are
-- Google's, `lower_other` is unicode.ToLower off ASCII.
pub record Platform (S : Type 0) : Type 0 where
  pub now : S → Time × S
  pub read_random : ℕ → Call S (List ℕ)
  pub generate_from_password : Text → Call S Text
  pub compare_hash_and_password : Text → Text → Bool
  pub seal : Text → AccessClaims → Call S Text
  pub unseal : Text → Text → Result Error AccessClaims
  pub exchange : GoogleConfig → Text → Call S Text
  pub user_info : GoogleConfig → Text → Call S UserInfo
  pub lower_other : ℕ → ℕ

-- time.Now().UTC() as a step of a block: it cannot fail.
abbrev pub read_clock : {S : Type 0} → Platform S → Call S Time
read_clock p s = let (t, s') = p.now s in (ok t, s')
