-- ===== src/Auth/Service/Session/Laws.antt =====
-- Rotation and revocation of refresh tokens.
use wesko_go_backend.Common.{◌≡◌, ◌↔◌, inl, inr, false, arith, is_empty, ltb}
use wesko_go_backend.Common.Text.{Text, trim_space}
use wesko_go_backend.Common.Exec.{ok, Call-cases}
use wesko_go_backend.Auth.Models.{User, RefreshSession, TokenPair}
use wesko_go_backend.Auth.Ports.{RefreshTokenStore}
use wesko_go_backend.Auth.Service.Base.{Service, issue_token_pair}
use wesko_go_backend.Auth.Service.Session.{refresh}

module _ {S : Type 0} (s : Service S) (store : RefreshTokenStore S) where
  -- The calls of a refresh that succeeds, from `w` to `t`.
  pub record IsRefreshed (raw : Text) (w : S) (user : User) (pair : TokenPair) (t : S)
      : Type 0 where
    pub given : is_empty (trim_space raw) ≡ false
    pub session : RefreshSession
    pub looked : S
    pub known : store.get (trim_space raw) w ≡ (ok session, looked)
    pub alive : ltb session.expires_at (s.platform.now looked).0 ≡ false
    pub found : S
    pub account :
        s.repo.get_user_details_by_username session.username (s.platform.now looked).1
        ≡ (ok user, found)
    pub issued : issue_token_pair s user (store.delete (trim_space raw) found).1 ≡ (ok pair, t)

  refresh_sound :
      (raw : Text) (w : S) {user : User} {pair : TokenPair} {t : S}
      → refresh s store raw w ≡ (ok (user, pair), t)
      → IsRefreshed raw w user pair t
  unfolding refresh
  refresh_sound raw w h = elim (Call-cases (store.get (trim_space raw) w)) [
    | inr (e, v, q) ↦ ground arith
    | inl (session, looked, q) ↦
        elim (Call-cases
          (s.repo.get_user_details_by_username session.username (s.platform.now looked).1)) [
            | inr (e, v, q') ↦ ground arith
            | inl (user, found, q') ↦
                elim (Call-cases
                  (issue_token_pair s user (store.delete (trim_space raw) found).1)) [
                    | inr (e, v, q'') ↦ ground arith
                    | inl (pair, v, q'') ↦ record {
                      given = ground arith;
                      session = session;
                      looked = looked;
                      known = ground arith;
                      alive = ground arith;
                      found = found;
                      account = ground arith;
                      issued = ground arith;
                    }
                  ]
          ]
  ]

  refresh_complete :
      (raw : Text) (w : S) {user : User} {pair : TokenPair} {t : S}
      → IsRefreshed raw w user pair t
      → refresh s store raw w ≡ (ok (user, pair), t)
  unfolding refresh
  refresh_complete raw w r = ground (arith, r.given, r.known, r.alive, r.account, r.issued)

-- A refresh returns a user and tokens exactly if the trimmed token is not empty, the store has a
-- session for it that has not expired, the session's user name has that account, and the tokens are
-- issued to it after the old token was deleted.
pub refresh_iff :
    {S : Type 0} (s : Service S) (store : RefreshTokenStore S) (raw : Text) (w : S) (user : User)
    (pair : TokenPair) (t : S)
    → (refresh s store raw w ≡ (ok (user, pair), t)) ↔ IsRefreshed s store raw w user pair t
refresh_iff s store raw w user pair t =
    (refresh_sound s store raw w, refresh_complete s store raw w)
