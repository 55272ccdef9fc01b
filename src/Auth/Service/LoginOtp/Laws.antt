-- ===== src/Auth/Service/LoginOtp/Laws.antt =====
-- Who gets a login code, and what a request answers to the others.
use wesko_go_backend.Common.{ℕ, ◌+◌, ◌≡◌, ◌↔◌, ◌⊎◌, inl, inr, true, false, arith, Bool-cases}
use wesko_go_backend.Common.Text.{Text}
use wesko_go_backend.Common.Exec.{Result, ok, err, Call-cases, Result-cases}
use wesko_go_backend.Auth.Errors.{Error, is_user_not_found, is_cache_miss}
use wesko_go_backend.Auth.Models.{User, OtpRequest, OtpRequestState}
use wesko_go_backend.Auth.Mobile.{normalize_indian_mobile}
use wesko_go_backend.Auth.Service.Base.{Service, validate_resend_window, login_otp_state_key}
use wesko_go_backend.Auth.Service.LoginOtp.{
  next_count, send_login_otp, login_otp_from, login_otp_for, request_login_otp,
}

module _ {S : Type 0} (s : Service S) (req : OtpRequest) (w : S) where
  -- A request that is answered by success though nothing is sent: `t` is the state after the
  -- lookups.
  pub data Silent (t : S) : Type 0 where
    malformed : (e : Error) → normalize_indian_mobile req.mobile ≡ err e → t ≡ w → Silent t
    unknown :
        (mobile : Text) (e : Error)
        → normalize_indian_mobile req.mobile ≡ ok mobile
        → s.repo.get_user_by_mobile mobile w ≡ (err e, t)
        → is_user_not_found e ≡ true
        → Silent t
    unverified :
        (mobile : Text) (user : User)
        → normalize_indian_mobile req.mobile ≡ ok mobile
        → s.repo.get_user_by_mobile mobile w ≡ (ok user, t)
        → user.mobile_verified ≡ false
        → Silent t
    closed :
        (mobile : Text) (user : User) (u v : S) (state : OtpRequestState) (e : Error)
        → normalize_indian_mobile req.mobile ≡ ok mobile
        → s.repo.get_user_by_mobile mobile w ≡ (ok user, u)
        → user.mobile_verified ≡ true
        → s.login_otp_store.get (login_otp_state_key mobile) u ≡ (ok state, v)
        → validate_resend_window s state.last_sent_at state.resend_count v ≡ (err e, t)
        → Silent t

  -- The provider sends a code to the mobile, and then the mobile's state is saved with a count of
  -- resends, the time after the sending, and the lifetime from that time on.
  pub record IsSending (mobile : Text) (count : ℕ) (v t : S) : Type 0 where
    pub sent : S
    pub sends : s.otp_provider.send_verification mobile v ≡ (ok tt, sent)
    pub saves :
        s.login_otp_store.save
          (login_otp_state_key mobile)
          (record {
            mobile = mobile;
            resend_count = count;
            last_sent_at = (s.platform.now sent).0;
            expires_at = (s.platform.now sent).0 + s.otp_config.pending_signup_ttl;
          })
          (s.platform.now sent).1
        ≡ (ok tt, t)

  send_login_otp_sound :
      (mobile : Text) (found : Result Error OtpRequestState) (v : S) {t : S}
      → send_login_otp s mobile found v ≡ (ok tt, t)
      → IsSending mobile (next_count found) v t
  unfolding send_login_otp
  send_login_otp_sound mobile found v h =
      elim (Call-cases (s.otp_provider.send_verification mobile v)) [
        | inr (e, u, q) ↦ absurd (ground arith)
        | inl (_, u, q) ↦ record { sent = u; sends = q; saves = ground arith }
      ]

  send_login_otp_complete :
      (mobile : Text) (found : Result Error OtpRequestState) (v : S) {t : S}
      → IsSending mobile (next_count found) v t
      → send_login_otp s mobile found v ≡ (ok tt, t)
  unfolding send_login_otp
  send_login_otp_complete mobile found v h = ground (arith, h.sends, h.saves)

  -- A request that sends: the account is verified, and no window is open or the open one allows it.
  pub data Sent (t : S) : Type 0 where
    first :
        (mobile : Text) (user : User) (u v : S) (e : Error)
        → normalize_indian_mobile req.mobile ≡ ok mobile
        → s.repo.get_user_by_mobile mobile w ≡ (ok user, u)
        → user.mobile_verified ≡ true
        → s.login_otp_store.get (login_otp_state_key mobile) u ≡ (err e, v)
        → is_cache_miss e ≡ true
        → IsSending mobile 0 v t
        → Sent t
    again :
        (mobile : Text) (user : User) (u v x : S) (state : OtpRequestState)
        → normalize_indian_mobile req.mobile ≡ ok mobile
        → s.repo.get_user_by_mobile mobile w ≡ (ok user, u)
        → user.mobile_verified ≡ true
        → s.login_otp_store.get (login_otp_state_key mobile) u ≡ (ok state, v)
        → validate_resend_window s state.last_sent_at state.resend_count v ≡ (ok tt, x)
        → IsSending mobile (state.resend_count + 1) x t
        → Sent t

  Silent-ok : {t : S} → Silent t → request_login_otp s req w ≡ (ok tt, t)
  unfolding request_login_otp login_otp_for login_otp_from
  Silent-ok (malformed e n same) = ground arith
  Silent-ok (unknown mobile e n q miss) = ground arith
  Silent-ok (unverified mobile user n q unv) = ground arith
  Silent-ok (closed mobile user u v state e n q ver g win) = ground arith

  Sent-ok : {t : S} → Sent t → request_login_otp s req w ≡ (ok tt, t)
  unfolding next_count request_login_otp login_otp_for login_otp_from
  Sent-ok (first mobile user u v e n q ver g miss send) =
      ground (arith, send_login_otp_complete mobile (err e) v send)
  Sent-ok (again mobile user u v x state n q ver g win send) =
      ground (arith, send_login_otp_complete mobile (ok state) x send)

  login_otp_from_cases :
      (mobile : Text) (user : User) (u : S) {t : S}
      → normalize_indian_mobile req.mobile ≡ ok mobile
      → s.repo.get_user_by_mobile mobile w ≡ (ok user, u)
      → user.mobile_verified ≡ true
      → login_otp_for s mobile (ok user) u ≡ (ok tt, t)
      → Silent t ⊎ Sent t
  unfolding next_count login_otp_for login_otp_from
  login_otp_from_cases mobile user u {t} n q ver h =
      elim (Call-cases (s.login_otp_store.get (login_otp_state_key mobile) u)) [
        | inr (e, v, g) ↦ inr (
            first mobile user u v e n q ver g (ground arith)
              (send_login_otp_sound mobile (err e) v (ground arith)))
        | inl (state, v, g) ↦
            elim (Call-cases (validate_resend_window s state.last_sent_at state.resend_count v)) [
              | inr (e, x, win) ↦
                  let same : x ≡ t = ground arith in
                  inl (closed mobile user u v state e n q ver g (rw (← same) win))
              | inl (_, x, win) ↦ inr (
                  again mobile user u v x state n q ver g (ground arith)
                    (send_login_otp_sound mobile (ok state) x (ground arith)))
            ]
      ]

  request_login_otp_cases : {t : S} → request_login_otp s req w ≡ (ok tt, t) → Silent t ⊎ Sent t
  unfolding request_login_otp
  request_login_otp_cases {t} h = elim (Result-cases (normalize_indian_mobile req.mobile)) [
    | inr (e, n) ↦ inl (malformed e n (ground arith))
    | inl (mobile, n) ↦ elim (Call-cases (s.repo.get_user_by_mobile mobile w)) [
      | inr (e, u, q) ↦
          let (miss, same) = unknown_case mobile e u (ground arith) in
          inl (unknown mobile e n (rw same q) miss)
      | inl (user, u, q) ↦ elim (Bool-cases user.mobile_verified) [
        | inl ver ↦ login_otp_from_cases mobile user u n q ver (ground arith)
        | inr unv ↦
            let same : t ≡ u = unfold login_otp_for in ground arith in
            inl (unverified mobile user n (rw same q) unv)
      ]
    ]
  ]
    where
      unknown_case :
          (mobile : Text) (e : Error) (u : S)
          → login_otp_for s mobile (err e) u ≡ (ok tt, t)
          → (is_user_not_found e ≡ true) × (t ≡ u)
      unknown_case mobile e u k = unfold login_otp_for in ground arith

-- A request for a login code is answered by success exactly if it is silent (the number is
-- malformed, unknown or unverified, or the resend window is closed, and nothing is sent) or the
-- number's account is verified, the provider sends a code to the number, and the state of the number
-- is saved with no resends, or one more than were stored, and a lifetime from the sending on.
pub request_login_otp_iff :
    {S : Type 0} (s : Service S) (req : OtpRequest) (w t : S)
    → (request_login_otp s req w ≡ (ok tt, t)) ↔ (Silent s req w t ⊎ Sent s req w t)
request_login_otp_iff s req w t = (
  request_login_otp_cases s req w,
  λ c. elim c [ inl silent ↦ Silent-ok s req w silent | inr sent ↦ Sent-ok s req w sent ],
)
