-- ===== src/Auth/Dao/Sso.antt =====
-- GetSSOAccount, CreateSSOUser and LinkSSOAccount of dbase/userdao/postgres.go.
use wesko_go_backend.Common.{ℕ, Bool, true, false, [], if◌then◌else◌}
use wesko_go_backend.Common.Text.{Text}
use wesko_go_backend.Common.Exec.{ok, err, pure, raise, ◌>>=◌, ◌>>◌}
use wesko_go_backend.Common.Gorm.{DbCall, rescue, tried}
use wesko_go_backend.Auth.Models.{User, SsoAccount}
use wesko_go_backend.Auth.Ports.{Call}
use wesko_go_backend.Auth.Dao.Rows.{
  SsoAccountModel, id_is, UserDb, raw, to_domain_user, new_user_model,
}

abbrev pub no_user : User
no_user = record {
  id = 0;
  username = [];
  email = [];
  mobile = [];
  mobile_verified = false;
  role = [];
  is_profile_complete = false;
  created_at = 0;
  updated_at = 0;
}

module _ {S : Type 0} (db : UserDb S) where
  -- The account of an identity, and whether there is one.
  unfoldable pub get_sso_account : Text → Text → Call S (User × Bool)
  get_sso_account provider provider_id = do
    linked ← tried (db.first_sso_account provider provider_id)
    elim linked [
      | err e ↦ if e.record_not_found then pure (no_user, false) else raise (raw e)
      | ok sso ↦ do
        found ← tried (db.first_user (id_is sso.user_id))
        elim found [
          | err e ↦ if e.record_not_found then pure (no_user, false) else raise (raw e)
          | ok model ↦ pure (to_domain_user model, true)
        ]
    ]

  unfoldable pub new_sso_model : ℕ → SsoAccount → SsoAccountModel
  new_sso_model user_id account = record {
    id = 0;
    user_id = user_id;
    provider = account.provider;
    provider_id = account.provider_id;
    email = account.email;
    created_at = 0;
    updated_at = 0;
  }

  -- The function of the transaction of CreateSSOUser.
  unfoldable pub insert_sso_user : User → SsoAccount → DbCall S User
  unfolding new_user_model new_sso_model
  insert_sso_user user account = do
    model ← db.create_user (new_user_model user)
    db.create_sso_account (new_sso_model model.id account)
    pure (to_domain_user model)

  unfoldable pub create_sso_user : User → SsoAccount → Call S User
  unfolding insert_sso_user
  create_sso_user user account = rescue raw (db.transaction (insert_sso_user user account))

  unfoldable pub link_sso_account : ℕ → SsoAccount → Call S Unit
  unfolding new_sso_model
  link_sso_account user_id account = do
    rescue raw (db.create_sso_account (new_sso_model user_id account))
    pure tt
