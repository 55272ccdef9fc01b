-- ===== src/Auth/Provider.antt =====
-- VerifyProvider of auth/provider/twilio/provider.go. `post` is the HTTP client with the request that
-- postForm makes, and `unmarshal` is json.Unmarshal of the answer to a check.
pub mod Laws
use wesko_go_backend.Common.{
  ℕ, Bool, true, false, ◌||◌, List, [], ◌∷◌, ◌++◌, is_empty, leb, if◌then◌else◌,
}
use wesko_go_backend.Common.Text.{Text, codes, eq, trim_space, to_lower}
use wesko_go_backend.Common.Exec.{Result, pure, lift, raise, ◌>>=◌}
use wesko_go_backend.Auth.Errors.{Error, otp_provider_unavailable, invalid_otp_code}
use wesko_go_backend.Auth.Ports.{Call, OtpProvider}

pub record VerifyProvider : Type 0 where
  pub account_sid : Text
  pub auth_token : Text
  pub service_sid : Text
  pub base_url : Text

-- NewVerifyProvider, without its client.
unfoldable pub new_verify_provider : Text → Text → Text → VerifyProvider
new_verify_provider account_sid auth_token service_sid = record {
  account_sid = trim_space account_sid;
  auth_token = trim_space auth_token;
  service_sid = trim_space service_sid;
  base_url = codes "https://verify.twilio.com/v2/Services";
}

-- A POST of a form, with basic authentication.
pub record FormRequest : Type 0 where
  pub endpoint : Text
  pub user : Text
  pub password : Text
  pub values : List (Text × Text)

-- An answer: its status and what reading its body gives.
pub record FormResponse : Type 0 where
  pub status : ℕ
  pub body : Result Error Text

-- The struct that CheckVerification decodes.
pub record CheckResponse : Type 0 where
  pub status : Text
  pub valid : Bool

-- `p.accountSID == "" || p.authToken == "" || p.serviceSID == ""`
unfoldable pub is_not_configured : VerifyProvider → Bool
is_not_configured p = is_empty p.account_sid || is_empty p.auth_token || is_empty p.service_sid

unfoldable pub service_url : VerifyProvider → Text → Text
service_url p path = p.base_url ++ (codes "/" ++ (p.service_sid ++ path))

-- strings.EqualFold(s, "approved"): no letter off ASCII folds to one of these.
unfoldable pub is_approved : CheckResponse → Bool
is_approved r = r.valid || eq (to_lower (λ c. c) r.status) (codes "approved")

module _ {S : Type 0} (post : FormRequest → Call S FormResponse)
    (unmarshal : Text → Result Error CheckResponse) (p : VerifyProvider) where
  -- The request of postForm.
  unfoldable pub form_request : Text → List (Text × Text) → FormRequest
  form_request endpoint values = record {
    endpoint = endpoint;
    user = p.account_sid;
    password = p.auth_token;
    values = values;
  }

  unfoldable pub post_form : Text → List (Text × Text) → Bool → Call S Text
  unfolding form_request
  post_form endpoint values need_body = do
    resp ← post (form_request endpoint values)
    body ← lift resp.body
    if leb 400 resp.status
        then if leb 500 resp.status then raise otp_provider_unavailable else raise invalid_otp_code
        else pure (if need_body then body else [])

  unfoldable pub send_verification : Text → Call S Unit
  unfolding is_not_configured service_url post_form
  send_verification mobile = if is_not_configured p then raise otp_provider_unavailable else do
    _ ←
        post_form (service_url p (codes "/Verifications"))
          ((codes "To", mobile) ∷ (codes "Channel", codes "sms") ∷ []) false
    pure tt

  unfoldable pub check_verification : Text → Text → Call S Bool
  unfolding is_not_configured service_url post_form is_approved
  check_verification mobile code =
      if is_not_configured p then raise otp_provider_unavailable else do
        body ←
            post_form (service_url p (codes "/VerificationCheck"))
              ((codes "To", mobile) ∷ (codes "Code", trim_space code) ∷ []) true
        response ← lift (unmarshal body)
        pure (is_approved response)

  -- VerifyProvider as an OTPProvider.
  abbrev pub verify_provider : OtpProvider S
  verify_provider = record {
    send_verification = send_verification;
    check_verification = check_verification;
  }
