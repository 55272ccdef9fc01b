-- ===== src/Auth/Dao/Users.antt =====
-- The lookups, RegisterUser and UpdateUser of dbase/userdao/postgres.go.
pub mod Laws
pub mod Register
use wesko_go_backend.Common.{
  ℕ, Bool, true, false, not, ◌&&◌, Option, none, some, [], is_empty, if◌then◌else◌,
}
use wesko_go_backend.Common.Text.{Text, codes}
use wesko_go_backend.Common.Exec.{Result, ok, err, pure, raise, ◌>>=◌, ◌>>◌}
use wesko_go_backend.Common.Gorm.{DbError, DbCall, DeletedAt, not_deleted, rescue, tried}
use wesko_go_backend.Auth.Errors.{
  Error, other, user_not_found, user_already_exists, username_already_exists, email_already_exists,
  mobile_already_exists,
}
use wesko_go_backend.Auth.Models.{Time, User, SsoAccount}
use wesko_go_backend.Auth.Ports.{Call, UserRepository}
use wesko_go_backend.Auth.Dao.Rows.{
  UserModel, PasswordModel, SsoAccountModel, UserCondition, username_is, email_is, mobile_is, id_is,
  UserDb, raw, password_not_found, to_domain_user, mobile_column, new_user_model,
}

-- `if errors.Is(err, gorm.ErrRecordNotFound) { return ErrUserNotFound }; return err`
unfoldable pub on_missing_user : DbError → Error
on_missing_user e = if e.record_not_found then user_not_found else raw e

unfoldable pub on_missing_password : DbError → Error
on_missing_password e = if e.record_not_found then password_not_found else raw e

module _ {S : Type 0} (db : UserDb S) where
  unfoldable pub find_user : UserCondition → Call S User
  unfolding on_missing_user
  find_user condition = do
    model ← rescue on_missing_user (db.first_user condition)
    pure (to_domain_user model)

  unfoldable pub get_user_details_by_username : Text → Call S User
  unfolding find_user
  get_user_details_by_username username = find_user (username_is username)

  unfoldable pub get_user_by_email : Text → Call S User
  unfolding find_user
  get_user_by_email email = find_user (email_is email)

  unfoldable pub get_user_by_mobile : Text → Call S User
  unfolding find_user
  get_user_by_mobile mobile = find_user (mobile_is mobile)

  unfoldable pub get_user_by_id : ℕ → Call S User
  unfolding find_user
  get_user_by_id id = find_user (id_is id)

  -- `if passwordHash != "" { tx.Create(&password) }`
  unfoldable pub add_password : ℕ → Text → DbCall S Unit
  add_password id password_hash = if is_empty password_hash then pure tt else do
    db.create_password
        (record { user_id = id; password_hash = password_hash; created_at = 0; updated_at = 0 })
    pure tt

  -- The function of the transaction of RegisterUser.
  unfoldable pub insert_user : User → Text → DbCall S User
  unfolding add_password new_user_model
  insert_user user password_hash = do
    model ← db.create_user (new_user_model user)
    add_password model.id password_hash
    pure (to_domain_user model)

  -- Whether a row is there; an error counts as none.
  unfoldable pub is_taken : UserCondition → Call S Bool
  is_taken condition = do
    row ← tried (db.first_user condition)
    elim row [ ok model ↦ pure true | err e ↦ pure false ]

  -- The switch of RegisterUser that asks which column is taken.
  unfoldable pub explain : User → DbError → Call S User
  unfolding is_taken
  explain user e = do
    name_taken ← is_taken (username_is user.username)
    if name_taken then raise username_already_exists else do
      email_taken ← is_taken (email_is user.email)
      if email_taken
          then raise email_already_exists
          else if is_empty user.mobile
          then raise (raw e)
          else do
            mobile_taken ← is_taken (mobile_is user.mobile)
            if mobile_taken then raise mobile_already_exists else raise (raw e)

  unfoldable pub register_user : User → Text → Call S User
  unfolding insert_user explain
  register_user user password_hash = do
    done ← tried (db.transaction (insert_user user password_hash))
    elim done [
      | ok registered ↦ pure registered
      | err e ↦ if e.duplicated_key then raise user_already_exists else explain user e
    ]

  unfoldable pub update_user : User → Call S Unit
  unfolding mobile_column
  update_user user = rescue raw (
      db.updates_user user.id λ row. record row {
        username = user.username;
        email = user.email;
        mobile = mobile_column user.mobile;
        mobile_verified = user.mobile_verified;
        role = user.role;
        is_profile_complete = some user.is_profile_complete;
      })

  unfoldable pub get_password_hash_by_user_id : ℕ → Call S Text
  unfolding on_missing_password
  get_password_hash_by_user_id id = do
    model ← rescue on_missing_password (db.first_password id)
    pure model.password_hash
