-- ===== src/Auth/Service/Base/Laws.antt =====
-- The resend window, and what it takes to issue tokens.
use wesko_go_backend.Common.{
  ℕ, ◌+◌, ◌<◌, ◌≤◌, ◌≡◌, ◌≢◌, ◌↔◌, ◌⊎◌, refl, inl, inr, Option, some, none, arith,
}
use wesko_go_backend.Common.Exec.{ok, err, Call-cases}
use wesko_go_backend.Auth.Errors.{otp_resend_limit_reached, otp_resend_too_soon}
use wesko_go_backend.Auth.Models.{User, TokenPair, RefreshSession}
use wesko_go_backend.Auth.Ports.{RefreshTokenStore}
use wesko_go_backend.Auth.Token.{TokenManager, generate_token_pair}
use wesko_go_backend.Auth.Service.Base.{
  Service, validate_resend_window, issue_with, issue_token_pair,
}

module _ {S : Type 0} (s : Service S) where
  -- The calls of an issue that succeeds.
  pub record IsIssued (user : User) (w : S) (pair : TokenPair) (t : S) : Type 0 where
    pub manager : TokenManager
    pub store : RefreshTokenStore S
    pub configured : (s.token_manager ≡ some manager) × (s.refresh_store ≡ some store)
    pub session : RefreshSession
    pub middle : S
    pub generated : generate_token_pair s.platform manager user w ≡ (ok (pair, session), middle)
    pub saved : store.save pair.refresh_token session middle ≡ (ok tt, t)

  issue_with-IsIssued :
      (m : Option TokenManager) (r : Option (RefreshTokenStore S))
      → s.token_manager ≡ m
      → s.refresh_store ≡ r
      → (user : User) (w : S) {pair : TokenPair} {t : S} → issue_with s m r user w ≡ (ok pair, t)
      → IsIssued user w pair t
  unfolding issue_with
  issue_with-IsIssued (some m) (some r) em er user w h =
      elim (Call-cases (generate_token_pair s.platform m user w)) [
        | inr (e, v, q) ↦ ground arith
        | inl ((pair, session), middle, q) ↦
            elim (Call-cases (r.save pair.refresh_token session middle)) [
              | inr (e, v, q') ↦ ground arith
              | inl (_, v, q') ↦ record {
                manager = m;
                store = r;
                configured = (em, er);
                session = session;
                middle = middle;
                generated = ground arith;
                saved = ground arith;
              }
            ]
      ]
  issue_with-IsIssued none r em er user w h = cc
  issue_with-IsIssued (some m) none em er user w h = cc

  pub issue_token_pair-IsIssued :
      (user : User) (w : S) {pair : TokenPair} {t : S}
      → issue_token_pair s user w ≡ (ok pair, t)
      → IsIssued user w pair t
  unfolding issue_token_pair
  issue_token_pair-IsIssued user w h =
      issue_with-IsIssued s.token_manager s.refresh_store refl refl user w h

  -- A resend is refused for its count exactly if a limit is set and reached, and as too soon
  -- exactly if that is not so, something was sent before, a cooldown is set, and the clock stands
  -- within it.
  pub validate_resend_window_iff :
      (last count : ℕ) (w : S)
      → (((validate_resend_window s last count w).0 ≡ err otp_resend_limit_reached)
          ↔ ((0 < s.otp_config.max_resends) × (s.otp_config.max_resends ≤ count)))
        × (((validate_resend_window s last count w).0 ≡ err otp_resend_too_soon) ↔ (
            ((s.otp_config.max_resends ≡ 0) ⊎ (count < s.otp_config.max_resends))
            × (last ≢ 0)
            × ((s.platform.now w).0 < last + s.otp_config.resend_cooldown)
            × (0 < s.otp_config.resend_cooldown)))
  unfolding validate_resend_window
  validate_resend_window_iff last count w = ground arith
