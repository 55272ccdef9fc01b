-- ===== src/Auth/Service/Session.antt =====
-- Refresh, Logout and AuthenticateAccessToken of auth/service/service.go. The refresh store is a
-- nil interface in none of these calls: main.go always sets it, and a nil one would panic.
pub mod Laws
pub mod Rotation
use wesko_go_backend.Common.{Bool, some, none, Option, is_empty, ltb, if◌then◌else◌}
use wesko_go_backend.Common.Text.{Text, trim_space}
use wesko_go_backend.Common.Exec.{pure, raise, map_err, ignore, ◌>>=◌, ◌>>◌}
use wesko_go_backend.Auth.Errors.{
  Error, invalid_refresh_token, token_expired, unauthorized, is_cache_miss,
}
use wesko_go_backend.Auth.Models.{User, AccessClaims, TokenPair}
use wesko_go_backend.Auth.Ports.{Call, RefreshTokenStore, read_clock}
use wesko_go_backend.Auth.Token.{TokenManager, parse_access_token}
use wesko_go_backend.Auth.Service.Base.{Service, issue_token_pair}

-- A token that the store does not know is an invalid one.
unfoldable pub unknown_token : Error → Error
unknown_token e = if is_cache_miss e then invalid_refresh_token else e

module _ {S : Type 0} (s : Service S) (store : RefreshTokenStore S) where
  unfoldable pub refresh : Text → Call S (User × TokenPair)
  refresh raw =
      let refresh_token = trim_space raw in
      if is_empty refresh_token then raise invalid_refresh_token else do
        session ← map_err unknown_token (store.get refresh_token)
        now ← read_clock s.platform
        if ltb session.expires_at now
            then (do ignore (store.delete refresh_token); raise token_expired)
            else (do
              user ← s.repo.get_user_details_by_username session.username
              ignore (store.delete refresh_token)
              tokens ← issue_token_pair s user
              pure (user, tokens))

  unfoldable pub logout : Text → Call S Unit
  logout raw =
      let refresh_token = trim_space raw in
      if is_empty refresh_token then raise invalid_refresh_token else store.delete refresh_token

module _ {S : Type 0} (s : Service S) where
  authenticate_with : Option TokenManager → Text → Call S AccessClaims
  authenticate_with none token = raise unauthorized
  authenticate_with (some manager) token = parse_access_token s.platform manager token

  unfoldable pub authenticate_access_token : Text → Call S AccessClaims
  unfolding authenticate_with
  authenticate_access_token token = authenticate_with s.token_manager token
