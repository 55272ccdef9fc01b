-- ===== src/Auth/Service/Profile.antt =====
-- CompleteProfile of auth/service/service.go.
pub mod Laws
use wesko_go_backend.Common.{ℕ, Bool, true, false, not, ◌==◌, is_empty, if◌then◌else◌}
use wesko_go_backend.Common.Text.{Text, trim_space}
use wesko_go_backend.Common.Exec.{Result, ok, err, pure, raise, lift, attempt, ◌>>=◌, ◌>>◌}
use wesko_go_backend.Auth.Errors.{
  Error, profile_already_complete, invalid_username, username_already_exists, mobile_already_exists,
}
use wesko_go_backend.Auth.Models.{User, TokenPair}
use wesko_go_backend.Auth.Ports.{Call}
use wesko_go_backend.Auth.Mobile.{normalize_indian_mobile}
use wesko_go_backend.Auth.Service.Base.{Service, issue_token_pair}

-- An account of another user that holds the name or the mobile; a failed lookup holds nothing.
unfoldable pub refuse_other : {S : Type 0} → Error → ℕ → Result Error User → Call S Unit
refuse_other taken user_id (ok existing) =
    if not (existing.id == user_id) then raise taken else pure tt
refuse_other taken user_id (err e) = pure tt

unfoldable pub completed : User → Text → Text → User
completed user username mobile = record user {
  username = username;
  mobile = mobile;
  is_profile_complete = true;
}

module _ {S : Type 0} (s : Service S) where
  -- CompleteProfile once the name and the mobile are in normal form.
  unfoldable pub store_profile : User → ℕ → Text → Text → Call S (User × TokenPair)
  store_profile user user_id username mobile = do
    by_username ← attempt (s.repo.get_user_details_by_username username)
    refuse_other username_already_exists user_id by_username
    by_mobile ← attempt (s.repo.get_user_by_mobile mobile)
    refuse_other mobile_already_exists user_id by_mobile
    s.repo.update_user (completed user username mobile)
    tokens ← issue_token_pair s (completed user username mobile)
    pure (completed user username mobile, tokens)

  unfoldable pub complete_profile : ℕ → Text → Text → Call S (User × TokenPair)
  complete_profile user_id raw_username raw_mobile = do
    user ← s.repo.get_user_by_id user_id
    if user.is_profile_complete
        then raise profile_already_complete
        else (let username = trim_space raw_username in
            if is_empty username then raise invalid_username else do
              mobile ← lift (normalize_indian_mobile raw_mobile)
              store_profile user user_id username mobile)
