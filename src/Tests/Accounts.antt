-- ===== src/Tests/Accounts.antt =====
-- Numbers, signups, login codes, profiles and the cache of accounts.
use wesko_go_backend.Auth.Service.Profile.{refuse_other, store_profile, complete_profile}
use wesko_go_backend.Auth.Service.LoginOtp.{
  send_login_otp, login_otp_from, login_otp_for, request_login_otp,
}
use wesko_go_backend.Auth.Token.{generate_token_pair}
use wesko_go_backend.Auth.Service.Base.{issue_token_pair}
use wesko_go_backend.Auth.Service.Signup.{confirm_signup, verify_signup_otp}
use wesko_go_backend.Auth.Errors.{is_cache_miss, is_user_not_found, Error}
use wesko_go_backend.Auth.Service.Availability.{
  ensure_no_pending, refuse_taken, ensure_no_account, ensure_signup_availability,
}
use wesko_go_backend.Auth.Mobile.{finish, strip_prefix, step, scan, normalize_indian_mobile}
use wesko_go_backend.Common.Text.{has_prefix, trim_space, Text, codes, eq, is_digit, byte_len}
use wesko_go_backend.Common.{◌≡◌, ◌⊎◌, refl, false, [], ◌∷◌, ◌++◌}
use wesko_go_backend.Common.Exec.{Result, ok}
use wesko_go_backend.Auth.Models.{
  User, TokenPair, RegisterRequest, OtpRequest, OtpVerifyRequest, PendingSignup,
}
use wesko_go_backend.Auth.Mobile.Numbers.{IsNumberIn, normalize_indian_mobile_iff}
use wesko_go_backend.Auth.Service.Availability.Laws.{IsAvailable, ensure_signup_availability_iff}
use wesko_go_backend.Auth.Service.Signup.Laws.{IsVerified, verify_signup_otp_iff}
use wesko_go_backend.Auth.Service.LoginOtp.Laws.{Silent, Sent, request_login_otp_iff}
use wesko_go_backend.Auth.Service.Profile.Laws.{IsCompleted, complete_profile_iff}
use wesko_go_backend.Tests.World.{no_pair, World, world, service, ann, answer}
use wesko_go_backend.Memory.OtpState
use wesko_go_backend.Memory.Refresh
use wesko_go_backend.Memory.PendingSignup

abbrev number : Text
number = codes "+919876543210"

normalize_run : normalize_indian_mobile (codes " +91 98765-43210") ≡ ok number
unfolding normalize_indian_mobile trim_space scan step is_digit strip_prefix byte_len has_prefix
    finish
normalize_run = refl

normalize_indian_mobile_iff_example :
    (local : Text) × IsNumberIn (codes " +91 98765-43210") local × (number ≡ codes "+91" ++ local)
normalize_indian_mobile_iff_example =
    (normalize_indian_mobile_iff (codes " +91 98765-43210") number).0 normalize_run

-- Bob has asked for an account.
abbrev bob : RegisterRequest
bob = record {
  username = codes "bob";
  password = codes "secret";
  email = codes "bob@example.com";
  mobile = codes "+919876543211";
  client_type = [];
}

abbrev availability : Result Error Unit × World
availability = ensure_signup_availability service bob world

availability_run : availability ≡ (ok tt, availability.1)
unfolding ensure_signup_availability ensure_no_account refuse_taken eq is_user_not_found
    ensure_no_pending PendingSignup.get_mobile_by_username is_cache_miss
    PendingSignup.get_mobile_by_email PendingSignup.get_mobile_by_mobile
availability_run = refl

ensure_signup_availability_iff_example : IsAvailable service bob world availability.1
ensure_signup_availability_iff_example =
    (ensure_signup_availability_iff service bob world availability.1).0 availability_run

abbrev pending : PendingSignup
pending = record {
  username = codes "bob";
  password_hash = codes "secret";
  email = codes "bob@example.com";
  mobile = codes "+919876543211";
  resend_count = 0;
  last_sent_at = 990;
  expires_at = 1040;
}

abbrev asked : World
asked = (service.pending_signup_store.save pending world).1

abbrev verify_request : OtpVerifyRequest
verify_request = record { mobile = codes "9876543211"; code = codes "1234"; client_type = [] }

abbrev verified : Result Error (User × TokenPair) × World
verified = verify_signup_otp service verify_request asked

abbrev registered : User × TokenPair
registered = answer (ann, no_pair) verified.0

verified_run : verified ≡ (ok (registered.0, registered.1), verified.1)
unfolding verify_signup_otp normalize_indian_mobile trim_space scan step is_digit strip_prefix
    byte_len finish PendingSignup.get_by_mobile PendingSignup.save PendingSignup.add_signup eq
    confirm_signup issue_token_pair generate_token_pair Refresh.save
verified_run = refl

verify_signup_otp_iff_example :
    IsVerified service verify_request asked registered.0 registered.1 verified.1
verify_signup_otp_iff_example =
    (verify_signup_otp_iff service verify_request asked registered.0 registered.1 verified.1).0
      verified_run

abbrev login_request : OtpRequest
login_request = record { mobile = codes "9876543210"; client_type = [] }

abbrev requested : Result Error Unit × World
requested = request_login_otp service login_request world

requested_run : requested ≡ (ok tt, requested.1)
unfolding request_login_otp normalize_indian_mobile trim_space scan step is_digit strip_prefix
    byte_len finish login_otp_for eq login_otp_from OtpState.get is_cache_miss send_login_otp
    OtpState.save
requested_run = refl

request_login_otp_iff_example :
    Silent service login_request world requested.1 ⊎ Sent service login_request world requested.1
request_login_otp_iff_example =
    (request_login_otp_iff service login_request world requested.1).0 requested_run

-- Ann before her profile is complete.
abbrev incomplete : World
incomplete = record world { users = record ann { is_profile_complete = false } ∷ [] }

abbrev profile : Result Error (User × TokenPair) × World
profile = complete_profile service 1 (codes "anna") (codes "9876543210") incomplete

abbrev anna : User × TokenPair
anna = answer (ann, no_pair) profile.0

profile_run : profile ≡ (ok (anna.0, anna.1), profile.1)
unfolding complete_profile trim_space normalize_indian_mobile scan step is_digit strip_prefix
    byte_len finish store_profile refuse_other eq issue_token_pair generate_token_pair Refresh.save
profile_run = refl

complete_profile_iff_example :
    IsCompleted service 1 (codes "anna") (codes "9876543210") incomplete anna.0 anna.1 profile.1
complete_profile_iff_example =
    (complete_profile_iff service 1 (codes "anna") (codes "9876543210") incomplete anna.0 anna.1
        profile.1).0
      profile_run
