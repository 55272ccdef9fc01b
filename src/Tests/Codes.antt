-- ===== src/Tests/Codes.antt =====
-- Signup requests, logins by code and logins by Google in the small world.
use wesko_go_backend.Auth.Provider.{
  VerifyProvider, FormRequest, FormResponse, CheckResponse, check_verification,
}
use wesko_go_backend.Auth.Provider.Laws.{IsChecked, check_verification_iff}
use wesko_go_backend.Auth.Ports.{Call}
use wesko_go_backend.Auth.Service.Signup.{account_status}
use wesko_go_backend.Auth.Service.Signup.{status_from}
use wesko_go_backend.Auth.Service.Google.{google_login}
use wesko_go_backend.Auth.Token.{generate_token_pair}
use wesko_go_backend.Auth.Service.Base.{issue_token_pair, validate_resend_window}
use wesko_go_backend.Common.Text.{eq, byte_len, is_digit, trim_space, to_lower, codes, Text}
use wesko_go_backend.Auth.Mobile.{finish, strip_prefix, step, scan, normalize_indian_mobile}
use wesko_go_backend.Auth.Service.Availability.{
  normalize_signup_request, ensure_signup_availability, ensure_no_account, refuse_taken,
  ensure_no_pending,
}
use wesko_go_backend.Auth.Errors.{is_user_not_found, is_cache_miss, Error}
use wesko_go_backend.Common.{◌≡◌, refl, true, false, []}
use wesko_go_backend.Common.Exec.{Result, ok}
use wesko_go_backend.Auth.Models.{User, RegisterRequest, OtpVerifyRequest, TokenPair}
use wesko_go_backend.Auth.Service.Signup.{request_signup_otp, resend_signup_otp, signup_status}
use wesko_go_backend.Auth.Service.Signup.Request.{IsRequested, request_signup_otp_iff}
use wesko_go_backend.Auth.Service.LoginOtp.{verify_login_otp}
use wesko_go_backend.Auth.Service.LoginOtp.Verify.{IsLoggedIn, verify_login_otp_iff}
use wesko_go_backend.Tests.World.{World, world, service, ann, answer, no_pair}
use wesko_go_backend.Memory.Refresh
use wesko_go_backend.Memory.PendingSignup

abbrev bob : RegisterRequest
bob = record {
  username = codes " bob ";
  password = codes "secret";
  email = codes "Bob@example.com";
  mobile = codes "98765 43211";
  client_type = [];
}

abbrev requested : Result Error Unit × World
requested = request_signup_otp service bob world

requested_run : requested ≡ (ok tt, requested.1)
unfolding request_signup_otp normalize_signup_request trim_space to_lower normalize_indian_mobile
    scan step is_digit strip_prefix byte_len finish ensure_signup_availability ensure_no_account
    refuse_taken eq is_user_not_found ensure_no_pending PendingSignup.get_mobile_by_username
    is_cache_miss PendingSignup.get_mobile_by_email PendingSignup.get_mobile_by_mobile
    PendingSignup.save PendingSignup.add_signup
requested_run = refl

request_signup_otp_iff_example : IsRequested service bob world requested.1
request_signup_otp_iff_example =
    (request_signup_otp_iff service bob world requested.1).0 requested_run

abbrev code_request : OtpVerifyRequest
code_request = record { mobile = codes "9876543210"; code = codes "1234"; client_type = [] }

abbrev logged_in : Result Error (User × TokenPair) × World
logged_in = verify_login_otp service code_request world

abbrev login_pair : TokenPair
login_pair = (answer (ann, no_pair) logged_in.0).1

logged_in_run : logged_in ≡ (ok (ann, login_pair), logged_in.1)
unfolding verify_login_otp normalize_indian_mobile trim_space scan step is_digit strip_prefix
    byte_len finish eq issue_token_pair generate_token_pair Refresh.save
logged_in_run = refl

verify_login_otp_iff_example : IsLoggedIn service code_request world ann login_pair logged_in.1
verify_login_otp_iff_example =
    (verify_login_otp_iff service code_request world ann login_pair logged_in.1).0 logged_in_run

abbrev by_google : Result Error (User × TokenPair) × World
by_google = google_login service (codes "code") world

abbrev google_pair : TokenPair
google_pair = (answer (ann, no_pair) by_google.0).1

-- Bob asks again after the cooldown.
abbrev later : World
later = record requested.1 { clock = 1007 }

abbrev resent : Result Error Unit × World
resent = resend_signup_otp service (record { mobile = codes "98765 43211"; client_type = [] }) later

resent_run : resent ≡ (ok tt, resent.1)
unfolding resend_signup_otp validate_resend_window PendingSignup.get_by_mobile request_signup_otp
    normalize_signup_request trim_space to_lower normalize_indian_mobile scan step is_digit
    strip_prefix byte_len finish ensure_signup_availability ensure_no_account refuse_taken eq
    is_user_not_found ensure_no_pending PendingSignup.get_mobile_by_username is_cache_miss
    PendingSignup.get_mobile_by_email PendingSignup.get_mobile_by_mobile PendingSignup.save
    PendingSignup.add_signup
resent_run = refl

abbrev status : Result Error Text × World
status = signup_status service (codes "98765 43210") world

status_run : status ≡ (ok (codes "completed"), status.1)
unfolding signup_status normalize_indian_mobile trim_space scan step is_digit strip_prefix byte_len
    finish status_from PendingSignup.get_by_mobile is_cache_miss account_status eq
status_run = refl

-- A provider that is configured, and a service that answers that a code is approved.
abbrev verify : VerifyProvider
verify = record {
  account_sid = codes "a";
  auth_token = codes "b";
  service_sid = codes "c";
  base_url = codes "https://verify.twilio.com/v2/Services";
}

abbrev post : FormRequest → Call World FormResponse
post request w = (ok (record { status = 200; body = ok (codes "body") }), w)

abbrev check_response : CheckResponse
check_response = record { status = codes "Approved"; valid = false }

check_run :
    check_verification post
      (λ s. ok check_response)
      verify
      (codes "+919876543210")
      (codes "1234")
      world
    ≡ (ok true, world)
unfolding check_verification eq to_lower
check_run = refl

check_verification_iff_example :
    IsChecked post
      (λ s. ok check_response)
      verify
      (codes "+919876543210")
      (codes "1234")
      world
      world
check_verification_iff_example =
    (check_verification_iff post (λ s. ok check_response) verify (codes "+919876543210")
        (codes "1234") world world).0
      check_run
