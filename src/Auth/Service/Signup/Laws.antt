-- ===== src/Auth/Service/Signup/Laws.antt =====
-- What a verified signup, a request and a resend have done.
use wesko_go_backend.Common.{◌≡◌, ◌↔◌, inl, inr, true, false, arith, ltb, is_empty}
use wesko_go_backend.Common.Text.{Text, codes, trim_space}
use wesko_go_backend.Common.Exec.{ok, Call-cases, Result-cases}
use wesko_go_backend.Auth.Models.{User, OtpVerifyRequest, PendingSignup, TokenPair}
use wesko_go_backend.Auth.Mobile.{normalize_indian_mobile}
use wesko_go_backend.Auth.Service.Base.{Service, issue_token_pair}
use wesko_go_backend.Auth.Service.Signup.{verified_user, confirm_signup, verify_signup_otp}

-- The account of a customer that a pending signup becomes: its mobile verified, its profile complete.
abbrev pub account_of : PendingSignup → User
account_of pending = record {
  id = 0;
  username = pending.username;
  email = pending.email;
  mobile = pending.mobile;
  mobile_verified = true;
  role = codes "customer";
  is_profile_complete = true;
  created_at = 0;
  updated_at = 0;
}

module _ {S : Type 0} (s : Service S) where
  -- The calls of a confirmation that succeeds.
  pub record IsConfirmed (mobile code : Text) (pending : PendingSignup) (w : S) (user : User)
      (pair : TokenPair) (t : S) : Type 0 where
    pub checked : S
    pub approved : s.otp_provider.check_verification mobile code w ≡ (ok true, checked)
    pub stored : S
    pub registered :
        s.repo.register_user (account_of pending) pending.password_hash checked ≡ (ok user, stored)
    pub issued :
        issue_token_pair s user (s.pending_signup_store.delete_by_mobile mobile stored).1
        ≡ (ok pair, t)

  confirm_signup_sound :
      (mobile code : Text) (pending : PendingSignup) (w : S) {user : User} {pair : TokenPair}
      {t : S}
      → confirm_signup s mobile code pending w ≡ (ok (user, pair), t)
      → IsConfirmed mobile code pending w user pair t
  unfolding confirm_signup verified_user
  confirm_signup_sound mobile code pending w h =
      elim (Call-cases (s.otp_provider.check_verification mobile code w)) [
        | inr (e, v, q) ↦ ground arith
        | inl (false, checked, q) ↦ ground arith
        | inl (true, checked, q) ↦
            elim (Call-cases
              (s.repo.register_user (account_of pending) pending.password_hash checked)) [
                | inr (e, v, q') ↦ ground arith
                | inl (user, stored, q') ↦
                    elim (Call-cases (
                      issue_token_pair s user
                        (s.pending_signup_store.delete_by_mobile mobile stored).1)) [
                          | inr (e, v, q'') ↦ ground arith
                          | inl (pair, v, q'') ↦ record {
                            checked = checked;
                            approved = ground arith;
                            stored = stored;
                            registered = ground arith;
                            issued = ground arith;
                          }
                        ]
              ]
      ]

  confirm_signup_complete :
      (mobile code : Text) (pending : PendingSignup) (w : S) {user : User} {pair : TokenPair}
      {t : S}
      → IsConfirmed mobile code pending w user pair t
      → confirm_signup s mobile code pending w ≡ (ok (user, pair), t)
  unfolding confirm_signup verified_user
  confirm_signup_complete mobile code pending w c =
      ground (arith, c.approved, c.registered, c.issued)

  -- The calls of a verification that succeeds.
  pub record IsVerified (req : OtpVerifyRequest) (w : S) (user : User) (pair : TokenPair) (t : S)
      : Type 0 where
    pub mobile : Text
    pub normal : normalize_indian_mobile req.mobile ≡ ok mobile
    pub given : is_empty (trim_space req.code) ≡ false
    pub pending : PendingSignup
    pub looked : S
    pub known : s.pending_signup_store.get_by_mobile mobile w ≡ (ok pending, looked)
    pub alive : ltb pending.expires_at (s.platform.now looked).0 ≡ false
    pub confirmed :
        IsConfirmed mobile (trim_space req.code) pending (s.platform.now looked).1 user pair t

  verify_signup_otp_sound :
      (req : OtpVerifyRequest) (w : S) {user : User} {pair : TokenPair} {t : S}
      → verify_signup_otp s req w ≡ (ok (user, pair), t)
      → IsVerified req w user pair t
  unfolding verify_signup_otp
  verify_signup_otp_sound req w {user} {pair} {t} h =
      elim (Result-cases (normalize_indian_mobile req.mobile)) [
        | inr (e, q) ↦ ground arith
        | inl (mobile, q) ↦ elim (Call-cases (s.pending_signup_store.get_by_mobile mobile w)) [
          | inr (e, v, q') ↦ ground arith
          | inl (pending, looked, q') ↦ record {
            mobile = mobile;
            normal = q;
            given = ground arith;
            pending = pending;
            looked = looked;
            known = q';
            alive = ground arith;
            confirmed =
                confirm_signup_sound mobile (trim_space req.code) pending (s.platform.now looked).1
                  (ground arith);
          }
        ]
      ]

  verify_signup_otp_complete :
      (req : OtpVerifyRequest) (w : S) {user : User} {pair : TokenPair} {t : S}
      → IsVerified req w user pair t
      → verify_signup_otp s req w ≡ (ok (user, pair), t)
  unfolding verify_signup_otp
  verify_signup_otp_complete req w v = ground (
    arith,
    v.normal,
    v.given,
    v.known,
    v.alive,
    confirm_signup_complete v.mobile (trim_space req.code) v.pending (s.platform.now v.looked).1
        v.confirmed,
  )

-- A signup is verified, and an account made, exactly if the mobile normalises, a code is given, the
-- store has a pending signup for the mobile that has not expired, the provider approves the code,
-- and the account of the pending signup (a verified customer with a complete profile) is
-- registered with its hash; the pending signup is then deleted and tokens are issued.
pub verify_signup_otp_iff :
    {S : Type 0} (s : Service S) (req : OtpVerifyRequest) (w : S) (user : User) (pair : TokenPair)
    (t : S)
    → (verify_signup_otp s req w ≡ (ok (user, pair), t)) ↔ IsVerified s req w user pair t
verify_signup_otp_iff s req w user pair t =
    (verify_signup_otp_sound s req w, verify_signup_otp_complete s req w)
