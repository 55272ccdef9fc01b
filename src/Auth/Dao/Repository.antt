-- ===== src/Auth/Dao/Repository.antt =====
-- PostgresRepository of dbase/userdao/postgres.go, as the repository that the service takes.
use wesko_go_backend.Auth.Ports.{UserRepository}
use wesko_go_backend.Auth.Dao.Rows.{UserDb}
use wesko_go_backend.Auth.Dao.Users.{
  get_user_details_by_username, get_user_by_email, get_user_by_mobile, get_user_by_id,
  register_user, update_user, get_password_hash_by_user_id,
}
use wesko_go_backend.Auth.Dao.Sso.{get_sso_account, create_sso_user, link_sso_account}

abbrev pub postgres_repository : {S : Type 0} → UserDb S → UserRepository S
postgres_repository db = record {
  get_user_details_by_username = get_user_details_by_username db;
  get_user_by_email = get_user_by_email db;
  get_user_by_mobile = get_user_by_mobile db;
  get_user_by_id = get_user_by_id db;
  register_user = register_user db;
  update_user = update_user db;
  get_password_hash_by_user_id = get_password_hash_by_user_id db;
  get_sso_account = get_sso_account db;
  create_sso_user = create_sso_user db;
  link_sso_account = link_sso_account db;
}
