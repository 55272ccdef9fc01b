-- ===== src/Auth/Service/LoginOtp/Verify.antt =====
-- When a login code is accepted.
use wesko_go_backend.Common.{◌≡◌, ◌↔◌, inl, inr, true, false, arith, is_empty}
use wesko_go_backend.Common.Text.{Text, trim_space}
use wesko_go_backend.Common.Exec.{ok, Call-cases, Result-cases}
use wesko_go_backend.Auth.Models.{User, OtpVerifyRequest, TokenPair}
use wesko_go_backend.Auth.Mobile.{normalize_indian_mobile}
use wesko_go_backend.Auth.Service.Base.{Service, issue_token_pair, login_otp_state_key}
use wesko_go_backend.Auth.Service.LoginOtp.{verify_login_otp}

module _ {S : Type 0} (s : Service S) where
  -- The calls of a login by code that succeeds.
  pub record IsLoggedIn (req : OtpVerifyRequest) (w : S) (user : User) (pair : TokenPair) (t : S)
      : Type 0 where
    pub mobile : Text
    pub normal : normalize_indian_mobile req.mobile ≡ ok mobile
    pub given : is_empty (trim_space req.code) ≡ false
    pub found : S
    pub account : s.repo.get_user_by_mobile mobile w ≡ (ok user, found)
    pub verified : user.mobile_verified ≡ true
    pub checked : S
    pub approved :
        s.otp_provider.check_verification mobile (trim_space req.code) found ≡ (ok true, checked)
    pub issued :
        issue_token_pair s user (s.login_otp_store.delete (login_otp_state_key mobile) checked).1
        ≡ (ok pair, t)

  verify_login_otp_sound :
      (req : OtpVerifyRequest) (w : S) {user : User} {pair : TokenPair} {t : S}
      → verify_login_otp s req w ≡ (ok (user, pair), t)
      → IsLoggedIn req w user pair t
  unfolding verify_login_otp
  verify_login_otp_sound req w h = elim (Result-cases (normalize_indian_mobile req.mobile)) [
    | inr (e, q) ↦ ground arith
    | inl (mobile, q) ↦ elim (Call-cases (s.repo.get_user_by_mobile mobile w)) [
      | inr (e, v, q') ↦ ground arith
      | inl (user, found, q') ↦
          elim (Call-cases (s.otp_provider.check_verification mobile (trim_space req.code) found)) [
            | inr (e, v, c) ↦ ground arith
            | inl (false, v, c) ↦ ground arith
            | inl (true, checked, c) ↦
                elim (Call-cases (
                  issue_token_pair s user
                    (s.login_otp_store.delete (login_otp_state_key mobile) checked).1)) [
                      | inr (e, v, i) ↦ ground arith
                      | inl (pair, v, i) ↦ record {
                        mobile = mobile;
                        normal = q;
                        given = ground arith;
                        found = found;
                        account = ground arith;
                        verified = ground arith;
                        checked = checked;
                        approved = ground arith;
                        issued = ground arith;
                      }
                    ]
          ]
    ]
  ]

  verify_login_otp_complete :
      (req : OtpVerifyRequest) (w : S) {user : User} {pair : TokenPair} {t : S}
      → IsLoggedIn req w user pair t
      → verify_login_otp s req w ≡ (ok (user, pair), t)
  unfolding verify_login_otp
  verify_login_otp_complete req w l =
      ground (arith, l.normal, l.given, l.account, l.verified, l.approved, l.issued)

-- A login by code returns a user and tokens exactly if the mobile normalises, a code is given, the
-- mobile has that account and it is verified, the provider approves the code, and tokens are issued
-- after the state of the code was deleted.
pub verify_login_otp_iff :
    {S : Type 0} (s : Service S) (req : OtpVerifyRequest) (w : S) (user : User) (pair : TokenPair)
    (t : S)
    → (verify_login_otp s req w ≡ (ok (user, pair), t)) ↔ IsLoggedIn s req w user pair t
verify_login_otp_iff s req w user pair t =
    (verify_login_otp_sound s req w, verify_login_otp_complete s req w)
