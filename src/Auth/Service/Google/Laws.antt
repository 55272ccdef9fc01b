-- ===== src/Auth/Service/Google/Laws.antt =====
-- Which account a login by Google ends in.
use wesko_go_backend.Common.{◌≡◌, true, false, ◌++◌, ◌%◌}
use wesko_go_backend.Common.Text.{Text, codes}
use wesko_go_backend.Common.Exec.{ok, err}
use wesko_go_backend.Auth.Errors.{Error, is_user_not_found}
use wesko_go_backend.Auth.Models.{User, TokenPair}
use wesko_go_backend.Auth.Ports.{UserInfo}
use wesko_go_backend.Auth.Service.Base.{Service, issue_token_pair}
use wesko_go_backend.Auth.Service.Google.{local_part, decimal, unix, google_account, google_user}

module _ {S : Type 0} (s : Service S) where
  -- The name of a new account: the part of the address before the sign, with three digits of the
  -- clock where the lookup of it succeeds.
  pub data Picked (info : UserInfo) (w : S) : Text → S → Type 0 where
    free :
        (e : Error) (t : S)
        → s.repo.get_user_details_by_username (local_part info.email) w ≡ (err e, t)
        → Picked info w (local_part info.email) t
    taken :
        (other : User) (v : S)
        → s.repo.get_user_details_by_username (local_part info.email) w ≡ (ok other, v)
        → Picked info w
            (local_part info.email ++ codes "_" ++ decimal (unix (s.platform.now v).0 % 1000))
            (s.platform.now v).1

  -- The account of an identity: one that is linked to it, one with its address, which is then
  -- linked, or a new one with an open profile.
  pub data Resolved (info : UserInfo) (w : S) (user : User) (t : S) : Type 0 where
    linked :
        s.repo.get_sso_account (codes "google") info.id w ≡ (ok (user, true), t)
        → Resolved info w user t
    matched :
        (ghost : User) (u v : S)
        → s.repo.get_sso_account (codes "google") info.id w ≡ (ok (ghost, false), u)
        → s.repo.get_user_by_email info.email u ≡ (ok user, v)
        → s.repo.link_sso_account user.id (google_account info) v ≡ (ok tt, t)
        → Resolved info w user t
    created :
        (ghost : User) (u v x : S) (e : Error) (username : Text)
        → s.repo.get_sso_account (codes "google") info.id w ≡ (ok (ghost, false), u)
        → s.repo.get_user_by_email info.email u ≡ (err e, v)
        → is_user_not_found e ≡ true
        → Picked info v username x
        → s.repo.create_sso_user (google_user info username) (google_account info) x ≡ (ok user, t)
        → Resolved info w user t

  -- The calls of a login that succeeds.
  pub record IsGoogleLogin (code : Text) (w : S) (user : User) (pair : TokenPair) (t : S)
      : Type 0 where
    pub token : Text
    pub exchanged : S
    pub exchange : s.platform.exchange s.google_config code w ≡ (ok token, exchanged)
    pub info : UserInfo
    pub fetched : S
    pub fetch : s.platform.user_info s.google_config token exchanged ≡ (ok info, fetched)
    pub settled : S
    pub resolved : Resolved info fetched user settled
    pub issued : issue_token_pair s user settled ≡ (ok pair, t)

  -- What an end of the login has found, and the tokens.
  abbrev IsSettled : UserInfo → S → User → TokenPair → S → Type 0
  IsSettled info w user pair t =
      (settled : S) × Resolved info w user settled
      × (issue_token_pair s user settled ≡ (ok pair, t))
