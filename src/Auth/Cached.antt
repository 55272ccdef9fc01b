-- ===== src/Auth/Cached.antt =====
-- CachedUserRepository of auth/cached_repository.go, over any store and any cache.
pub mod Laws
use wesko_go_backend.Common.{ℕ, Bool, Option, none, some}
use wesko_go_backend.Common.Text.{Text}
use wesko_go_backend.Common.Exec.{Result, ok, err, pure, attempt, ignore, ◌>>=◌, ◌>>◌}
use wesko_go_backend.Auth.Errors.{Error}
use wesko_go_backend.Auth.Models.{User, SsoAccount}
use wesko_go_backend.Auth.Ports.{Call, UserRepository, UserCache}

module _ {S : Type 0} (store : UserRepository S) where
  -- `if r.cache != nil { _ = r.cache.SetUser(ctx, user) }`, then the user
  unfoldable pub remember : Option (UserCache S) → User → Call S User
  remember none user = pure user
  remember (some cache) user = do ignore (cache.set_user user); pure user

  -- GetUserDetailsByUsername once the cache has answered: any error of the cache is a miss.
  unfoldable pub look_through : UserCache S → Text → Result Error User → Call S User
  unfolding remember
  look_through cache username (ok user) = pure user
  look_through cache username (err e) = do
    user ← store.get_user_details_by_username username
    remember (some cache) user

  unfoldable pub get_user_details_by_username : Option (UserCache S) → Text → Call S User
  get_user_details_by_username none username = store.get_user_details_by_username username
  get_user_details_by_username (some cache) username = do
    found ← attempt (cache.get_user username)
    look_through cache username found

  unfoldable pub get_user_by_email : Option (UserCache S) → Text → Call S User
  get_user_by_email cache email = do user ← store.get_user_by_email email; remember cache user

  unfoldable pub get_user_by_mobile : Option (UserCache S) → Text → Call S User
  get_user_by_mobile cache mobile = do user ← store.get_user_by_mobile mobile; remember cache user

  unfoldable pub register_user : Option (UserCache S) → User → Text → Call S User
  register_user cache user password_hash = do
    created_user ← store.register_user user password_hash
    remember cache created_user

  -- `if r.cache != nil { _ = r.cache.DeleteUser(ctx, username) }`
  unfoldable pub forget : Option (UserCache S) → Text → Call S Unit
  forget none username = pure tt
  forget (some cache) username = ignore (cache.delete_user username)

  unfoldable pub update_user : Option (UserCache S) → User → Call S Unit
  unfolding forget
  update_user cache user = do store.update_user user; forget cache user.username

  unfoldable pub create_sso_user : Option (UserCache S) → User → SsoAccount → Call S User
  create_sso_user cache user account = do
    created_user ← store.create_sso_user user account
    remember cache created_user

  -- NewCachedUserRepository
  unfoldable pub new_cached_user_repository : Option (UserCache S) → UserRepository S
  new_cached_user_repository cache = record {
    get_user_details_by_username = get_user_details_by_username cache;
    get_user_by_email = get_user_by_email cache;
    get_user_by_mobile = get_user_by_mobile cache;
    get_user_by_id = store.get_user_by_id;
    register_user = register_user cache;
    update_user = update_user cache;
    get_password_hash_by_user_id = store.get_password_hash_by_user_id;
    get_sso_account = store.get_sso_account;
    create_sso_user = create_sso_user cache;
    link_sso_account = store.link_sso_account;
  }
