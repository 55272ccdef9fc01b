-- ===== src/Auth/Service/Signup/Resend.antt =====
-- When a signup code is sent again.
use wesko_go_backend.Common.{ℕ, ◌≡◌, ◌≢◌, ◌↔◌, ◌⊎◌, ◌+◌, ◌<◌, ◌≤◌, inl, inr, arith}
use wesko_go_backend.Common.Text.{Text}
use wesko_go_backend.Common.Exec.{ok, Call-cases, Result-cases}
use wesko_go_backend.Auth.Models.{OtpRequest, PendingSignup, Time}
use wesko_go_backend.Auth.Mobile.{normalize_indian_mobile}
use wesko_go_backend.Auth.Service.Base.{Service, validate_resend_window}
use wesko_go_backend.Auth.Service.Signup.{resend_signup_otp}

module _ {S : Type 0} (s : Service S) where
  -- The resend window is open: the limit is not reached, if there is one, and the cooldown has
  -- passed, if there is one and something was sent. The clock is only read for a cooldown.
  abbrev pub IsOpen : Time → ℕ → S → S → Type 0
  IsOpen last count w t =
      ((s.otp_config.max_resends ≡ 0) ⊎ (count < s.otp_config.max_resends))
      × ((((last ≡ 0) ⊎ (s.otp_config.resend_cooldown ≡ 0)) × (t ≡ w))
          ⊎ ((last ≢ 0)
              × (0 < s.otp_config.resend_cooldown)
              × (last + s.otp_config.resend_cooldown ≤ (s.platform.now w).0)
              × (t ≡ (s.platform.now w).1)))

  IsOpen-sound :
      (last : Time) (count : ℕ) (w t : S)
      → validate_resend_window s last count w ≡ (ok tt, t)
      → IsOpen last count w t
  unfolding validate_resend_window
  IsOpen-sound last count w t h = ground arith

  IsOpen-complete :
      (last : Time) (count : ℕ) (w t : S)
      → IsOpen last count w t
      → validate_resend_window s last count w ≡ (ok tt, t)
  unfolding validate_resend_window
  IsOpen-complete last count w t h = ground arith

  -- The calls of a resend that succeeds.
  pub record IsResent (req : OtpRequest) (w t : S) : Type 0 where
    pub mobile : Text
    pub normal : normalize_indian_mobile req.mobile ≡ ok mobile
    pub pending : PendingSignup
    pub looked : S
    pub known : s.pending_signup_store.get_by_mobile mobile w ≡ (ok pending, looked)
    pub checked : S
    pub window : IsOpen pending.last_sent_at pending.resend_count looked checked
    pub sent_state : S
    pub sent : s.otp_provider.send_verification mobile checked ≡ (ok tt, sent_state)
    pub saved :
        s.pending_signup_store.save
          (record pending {
            resend_count = pending.resend_count + 1;
            last_sent_at = (s.platform.now sent_state).0;
          })
          (s.platform.now sent_state).1
        ≡ (ok tt, t)

  resend_signup_otp_sound :
      (req : OtpRequest) (w : S) {t : S} → resend_signup_otp s req w ≡ (ok tt, t) → IsResent req w t
  unfolding resend_signup_otp
  resend_signup_otp_sound req w {t} h = elim (Result-cases (normalize_indian_mobile req.mobile)) [
    | inr (e, q) ↦ ground arith
    | inl (mobile, q) ↦ elim (Call-cases (s.pending_signup_store.get_by_mobile mobile w)) [
      | inr (e, v, q') ↦ ground arith
      | inl (pending, looked, q') ↦
          elim (Call-cases
            (validate_resend_window s pending.last_sent_at pending.resend_count looked)) [
              | inr (e, v, c) ↦ ground arith
              | inl (_, checked, c) ↦
                  elim (Call-cases (s.otp_provider.send_verification mobile checked)) [
                    | inr (e, v, k) ↦ ground arith
                    | inl (_, v, k) ↦ record {
                      mobile = mobile;
                      normal = q;
                      pending = pending;
                      looked = looked;
                      known = q';
                      checked = checked;
                      window =
                          IsOpen-sound pending.last_sent_at pending.resend_count looked checked
                            (ground arith);
                      sent_state = v;
                      sent = ground arith;
                      saved = ground arith;
                    }
                  ]
            ]
    ]
  ]

  resend_signup_otp_complete :
      (req : OtpRequest) (w : S) {t : S} → IsResent req w t → resend_signup_otp s req w ≡ (ok tt, t)
  unfolding resend_signup_otp
  resend_signup_otp_complete req w r = ground (
    arith,
    r.normal,
    r.known,
    IsOpen-complete r.pending.last_sent_at r.pending.resend_count r.looked r.checked r.window,
    r.sent,
    r.saved,
  )

-- A signup code is sent again exactly if the mobile normalises and has a pending signup whose
-- resend window is open, the provider sends, and the signup is saved with its count one higher and
-- the time after the sending; its end stays the same.
pub resend_signup_otp_iff :
    {S : Type 0} (s : Service S) (req : OtpRequest) (w t : S)
    → (resend_signup_otp s req w ≡ (ok tt, t)) ↔ IsResent s req w t
resend_signup_otp_iff s req w t =
    (resend_signup_otp_sound s req w, resend_signup_otp_complete s req w)
