-- ===== src/Auth/Service/Login.antt =====
-- ValidateLogin, Login and ValidateCurrentUser of auth/service/service.go.
pub mod Laws
use wesko_go_backend.Common.{Bool, is_empty, if◌then◌else◌}
use wesko_go_backend.Common.Text.{Text, trim_space}
use wesko_go_backend.Common.Exec.{pure, raise, map_err, ◌>>=◌}
use wesko_go_backend.Auth.Errors.{
  Error, invalid_credentials, invalid_username, invalid_password, is_user_not_found,
}
use wesko_go_backend.Auth.Models.{User, PasswordLoginRequest, TokenPair}
use wesko_go_backend.Auth.Ports.{Call}
use wesko_go_backend.Auth.Service.Base.{Service, issue_token_pair}

-- An unknown user is reported as wrong credentials, any other error as it is.
unfoldable pub hide_not_found : Error → Error
hide_not_found e = if is_user_not_found e then invalid_credentials else e

module _ {S : Type 0} (s : Service S) where
  unfoldable pub validate_login : Text → Text → Call S User
  validate_login username password =
      let name = trim_space username in
      if is_empty name
      then raise invalid_username
      else if is_empty password
      then raise invalid_password
      else do
        user ← map_err hide_not_found (s.repo.get_user_details_by_username name)
        hash ← map_err (λ _. invalid_credentials) (s.repo.get_password_hash_by_user_id user.id)
        if s.platform.compare_hash_and_password hash password
            then pure user
            else raise invalid_credentials

  unfoldable pub login : PasswordLoginRequest → Call S (User × TokenPair)
  login req = do
    user ← validate_login req.username req.password
    tokens ← issue_token_pair s user
    pure (user, tokens)

  unfoldable pub validate_current_user : Text → Call S User
  validate_current_user username = s.repo.get_user_details_by_username (trim_space username)
