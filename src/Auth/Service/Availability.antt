-- ===== src/Auth/Service/Availability.antt =====
-- normalizeSignupRequest, ensureSignupAvailability and pendingConflict of auth/service/service.go.
pub mod Laws
use wesko_go_backend.Common.{Bool, true, false, not, ◌&&◌, ◌==◌, is_empty, if◌then◌else◌}
use wesko_go_backend.Common.Text.{Text, trim_space, to_lower, eq}
use wesko_go_backend.Common.Exec.{Result, ok, err, pure, raise, lift, attempt, ◌>>=◌, ◌>>◌}
use wesko_go_backend.Auth.Errors.{
  Error, invalid_username, invalid_password, invalid_email, username_already_exists,
  email_already_exists, mobile_already_exists, signup_verification_pending, is_user_not_found,
  is_cache_miss,
}
use wesko_go_backend.Auth.Models.{User, RegisterRequest, PendingSignup}
use wesko_go_backend.Auth.Ports.{Call}
use wesko_go_backend.Auth.Mobile.{normalize_indian_mobile}
use wesko_go_backend.Auth.Service.Base.{Service}

-- The error of a lookup that should find no account: `taken` where it finds one.
unfoldable pub refuse_taken : {S : Type 0} → Error → Result Error User → Call S Unit
refuse_taken taken (ok user) = if not (user.id == 0) then raise taken else pure tt
refuse_taken taken (err e) = if not (is_user_not_found e) then raise e else pure tt

-- The comparison of the pending signup that was found with the one that is asked for.
unfoldable pub conflict : PendingSignup → RegisterRequest → Error
conflict pending req =
    if eq pending.mobile req.mobile
      && eq pending.username req.username
      && eq pending.email req.email
    then signup_verification_pending
    else if eq pending.username req.username
    then username_already_exists
    else if eq pending.email req.email
    then email_already_exists
    else if eq pending.mobile req.mobile
    then mobile_already_exists
    else signup_verification_pending

module _ {S : Type 0} (s : Service S) where
  unfoldable pub normalize_signup_request : RegisterRequest → Result Error RegisterRequest
  normalize_signup_request req =
      let username = trim_space req.username in
      let email = to_lower s.platform.lower_other (trim_space req.email) in
      if is_empty username
      then err invalid_username
      else if is_empty req.password
      then err invalid_password
      else if is_empty email
      then err invalid_email
      else elim (normalize_indian_mobile req.mobile) [
        | err e ↦ err e
        | ok mobile ↦ ok (record req { username = username; email = email; mobile = mobile })
      ]

  after_pending : RegisterRequest → Result Error PendingSignup → Call S Unit
  after_pending req (ok pending) = raise (conflict pending req)
  after_pending req (err e) = if is_cache_miss e then pure tt else raise e

  unfoldable pub pending_conflict : Text → RegisterRequest → Call S Unit
  unfolding after_pending
  pending_conflict pending_mobile req = do
    found ← attempt (s.pending_signup_store.get_by_mobile pending_mobile)
    after_pending req found

  -- What follows one lookup in an index of pending signups: a hit ends the check, a miss goes on.
  on_index : RegisterRequest → Result Error Text → Call S Unit → Call S Unit
  on_index req (ok pending_mobile) next = pending_conflict pending_mobile req
  on_index req (err e) next = if not (is_cache_miss e) then raise e else next

  -- The checks against the accounts.
  unfoldable pub ensure_no_account : RegisterRequest → Call S Unit
  ensure_no_account req = do
    by_username ← attempt (s.repo.get_user_details_by_username req.username)
    refuse_taken username_already_exists by_username
    by_email ← attempt (s.repo.get_user_by_email req.email)
    refuse_taken email_already_exists by_email
    by_mobile ← attempt (s.repo.get_user_by_mobile req.mobile)
    refuse_taken mobile_already_exists by_mobile

  -- The checks against the pending signups.
  unfoldable pub ensure_no_pending : RegisterRequest → Call S Unit
  unfolding on_index
  ensure_no_pending req = do
    by_username ← attempt (s.pending_signup_store.get_mobile_by_username req.username)
    on_index req by_username (do
      by_email ← attempt (s.pending_signup_store.get_mobile_by_email req.email)
      on_index req by_email (do
        by_mobile ← attempt (s.pending_signup_store.get_mobile_by_mobile req.mobile)
        on_index req by_mobile (pure tt)))

  unfoldable pub ensure_signup_availability : RegisterRequest → Call S Unit
  ensure_signup_availability req = do ensure_no_account req; ensure_no_pending req
