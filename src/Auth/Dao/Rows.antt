-- ===== src/Auth/Dao/Rows.antt =====
-- The rows of accounts in dbase/userdao/postgres.go, and what the file takes of gorm, as named
-- calls; a query is named by the condition that the file writes.
use wesko_go_backend.Common.{ℕ, Bool, false, Option, none, some, [], is_empty, if◌then◌else◌}
use wesko_go_backend.Common.Text.{Text}
use wesko_go_backend.Common.Gorm.{DbError, DbCall, DeletedAt, not_deleted}
use wesko_go_backend.Auth.Errors.{Error, other}
use wesko_go_backend.Auth.Models.{Time, User}

pub record UserModel : Type 0 where
  pub id : ℕ
  pub username : Text
  pub email : Text
  pub mobile : Option Text
  pub mobile_verified : Bool
  pub role : Text
  pub is_profile_complete : Option Bool
  pub created_at : Time
  pub updated_at : Time
  pub deleted_at : DeletedAt

pub record PasswordModel : Type 0 where
  pub user_id : ℕ
  pub password_hash : Text
  pub created_at : Time
  pub updated_at : Time

-- The column `Data` is left out: nothing reads or writes it.
pub record SsoAccountModel : Type 0 where
  pub id : ℕ
  pub user_id : ℕ
  pub provider : Text
  pub provider_id : Text
  pub email : Text
  pub created_at : Time
  pub updated_at : Time

-- The conditions on accounts.
pub data UserCondition : Type 0 where
  username_is : Text → UserCondition
  email_is : Text → UserCondition
  mobile_is : Text → UserCondition
  id_is : ℕ → UserCondition

-- gorm's calls on the three tables; `updates_user id f` sets columns of the row by `f`.
pub record UserDb (S : Type 0) : Type 0 where
  pub create_user : UserModel → DbCall S UserModel
  pub create_password : PasswordModel → DbCall S PasswordModel
  pub create_sso_account : SsoAccountModel → DbCall S SsoAccountModel
  pub first_user : UserCondition → DbCall S UserModel
  pub first_password : ℕ → DbCall S PasswordModel
  pub first_sso_account : Text → Text → DbCall S SsoAccountModel
  pub updates_user : ℕ → (UserModel → UserModel) → DbCall S Unit
  pub transaction : DbCall S User → DbCall S User

-- An error of the database as it is.
abbrev pub raw : DbError → Error
raw e = other e.code

-- errors.New("password not found")
abbrev pub password_not_found : Error
password_not_found = other 0

unfoldable pub or_empty : Option Text → Text
or_empty none = []
or_empty (some s) = s

unfoldable pub or_false : Option Bool → Bool
or_false none = false
or_false (some b) = b

-- toDomainUser
unfoldable pub to_domain_user : UserModel → User
unfolding or_empty or_false
to_domain_user model = record {
  id = model.id;
  username = model.username;
  email = model.email;
  mobile = or_empty model.mobile;
  mobile_verified = model.mobile_verified;
  role = model.role;
  is_profile_complete = or_false model.is_profile_complete;
  created_at = model.created_at;
  updated_at = model.updated_at;
}

-- `var mobile *string; if user.Mobile != "" { … }`
unfoldable pub mobile_column : Text → Option Text
mobile_column mobile = if is_empty mobile then none else some mobile

-- The row that RegisterUser and CreateSSOUser create.
unfoldable pub new_user_model : User → UserModel
unfolding mobile_column
new_user_model user = record {
  id = 0;
  username = user.username;
  email = user.email;
  mobile = mobile_column user.mobile;
  mobile_verified = user.mobile_verified;
  role = user.role;
  is_profile_complete = some user.is_profile_complete;
  created_at = 0;
  updated_at = 0;
  deleted_at = not_deleted;
}
