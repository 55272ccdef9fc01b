-- ===== src/Auth/Service/Signup/Request.antt =====
-- When a signup is taken in and its code is sent.
use wesko_go_backend.Common.{◌≡◌, ◌↔◌, ◌+◌, inl, inr, false, arith, is_empty}
use wesko_go_backend.Common.Text.{Text, trim_space, to_lower}
use wesko_go_backend.Common.Exec.{ok, Call-cases, Result-cases}
use wesko_go_backend.Auth.Models.{RegisterRequest, PendingSignup, Time}
use wesko_go_backend.Auth.Mobile.{normalize_indian_mobile}
use wesko_go_backend.Auth.Service.Base.{Service}
use wesko_go_backend.Auth.Service.Availability.{
  normalize_signup_request, ensure_signup_availability,
}
use wesko_go_backend.Auth.Service.Availability.Laws.{IsAvailable, ensure_signup_availability_iff}
use wesko_go_backend.Auth.Service.Signup.{request_signup_otp}

-- The pending signup that a request with a hash becomes at a time.
abbrev pub pending_of : RegisterRequest → Text → Time → Time → PendingSignup
pending_of req hash now ttl = record {
  username = req.username;
  password_hash = hash;
  email = req.email;
  mobile = req.mobile;
  resend_count = 0;
  last_sent_at = now;
  expires_at = now + ttl;
}

module _ {S : Type 0} (s : Service S) where
  -- A request whose name is trimmed, whose address is trimmed and in lower case, whose mobile is in
  -- normal form, and none of whose parts is empty.
  pub record IsNormalized (raw req : RegisterRequest) : Type 0 where
    pub name : is_empty (trim_space raw.username) ≡ false
    pub secret : is_empty raw.password ≡ false
    pub address : is_empty (to_lower s.platform.lower_other (trim_space raw.email)) ≡ false
    pub mobile : Text
    pub normal : normalize_indian_mobile raw.mobile ≡ ok mobile
    pub result : req ≡ record raw {
      username = trim_space raw.username;
      email = to_lower s.platform.lower_other (trim_space raw.email);
      mobile = mobile;
    }

  -- The calls of a request that succeeds.
  pub record IsRequested (raw : RegisterRequest) (w t : S) : Type 0 where
    pub req : RegisterRequest
    pub normalized : IsNormalized raw req
    pub free : S
    pub available : IsAvailable s req w free
    pub hash : Text
    pub hashed_state : S
    pub hashed : s.platform.generate_from_password req.password free ≡ (ok hash, hashed_state)
    pub sent_state : S
    pub sent :
        s.otp_provider.send_verification req.mobile (s.platform.now hashed_state).1
        ≡ (ok tt, sent_state)
    pub saved :
        s.pending_signup_store.save
          (pending_of req hash (s.platform.now hashed_state).0 s.otp_config.pending_signup_ttl)
          sent_state
        ≡ (ok tt, t)

  normalize_sound :
      (raw : RegisterRequest) {req : RegisterRequest}
      → normalize_signup_request s raw ≡ ok req
      → IsNormalized raw req
  unfolding normalize_signup_request
  normalize_sound raw h = elim (Result-cases (normalize_indian_mobile raw.mobile)) [
    | inr (e, q) ↦ ground arith
    | inl (mobile, q) ↦ record {
      name = ground arith;
      secret = ground arith;
      address = ground arith;
      mobile = mobile;
      normal = q;
      result = ground arith;
    }
  ]

  normalize_complete :
      (raw : RegisterRequest) {req : RegisterRequest}
      → IsNormalized raw req
      → normalize_signup_request s raw ≡ ok req
  unfolding normalize_signup_request
  normalize_complete raw n = ground (arith, n.name, n.secret, n.address, n.normal, n.result)

  request_signup_otp_sound :
      (raw : RegisterRequest) (w : S) {t : S}
      → request_signup_otp s raw w ≡ (ok tt, t)
      → IsRequested raw w t
  unfolding request_signup_otp
  request_signup_otp_sound raw w {t} h = elim (Result-cases (normalize_signup_request s raw)) [
    | inr (e, q) ↦ ground arith
    | inl (req, q) ↦ elim (Call-cases (ensure_signup_availability s req w)) [
      | inr (e, v, q') ↦ ground arith
      | inl (_, free, q') ↦
          elim (Call-cases (s.platform.generate_from_password req.password free)) [
            | inr (e, v, g) ↦ ground arith
            | inl (hash, u, g) ↦
                elim (Call-cases
                  (s.otp_provider.send_verification req.mobile (s.platform.now u).1)) [
                    | inr (e, v, k) ↦ ground arith
                    | inl (_, v, k) ↦ record {
                      req = req;
                      normalized = normalize_sound raw q;
                      free = free;
                      available = (ensure_signup_availability_iff s req w free).0 (ground arith);
                      hash = hash;
                      hashed_state = u;
                      hashed = g;
                      sent_state = v;
                      sent = ground arith;
                      saved = ground arith;
                    }
                  ]
          ]
    ]
  ]

  request_signup_otp_complete :
      (raw : RegisterRequest) (w : S) {t : S}
      → IsRequested raw w t
      → request_signup_otp s raw w ≡ (ok tt, t)
  unfolding request_signup_otp
  request_signup_otp_complete raw w r = ground (
    arith,
    normalize_complete raw r.normalized,
    (ensure_signup_availability_iff s r.req w r.free).1 r.available,
    r.hashed,
    r.sent,
    r.saved,
  )

-- A request for a signup succeeds exactly if its name, password and address are not empty and its
-- mobile normalises, no account has the name, the address or the mobile, the three indices of pending
-- signups are missed or the first that is hit names a signup that is gone (the others are then not
-- looked at), the password is hashed, the code is sent to the mobile, and the normalised request is
-- saved with the hash, no resends, and a lifetime that starts before the sending.
pub request_signup_otp_iff :
    {S : Type 0} (s : Service S) (raw : RegisterRequest) (w t : S)
    → (request_signup_otp s raw w ≡ (ok tt, t)) ↔ IsRequested s raw w t
request_signup_otp_iff s raw w t =
    (request_signup_otp_sound s raw w, request_signup_otp_complete s raw w)
