-- ===== src/Tests/Users.antt =====
-- Accounts in a small database: rows of accounts and of passwords, and a counter for the keys.
use wesko_go_backend.Common.{
  ℕ, ◌+◌, ◌≡◌, refl, Bool, true, false, none, some, List, [], ◌∷◌, ◌==◌, arith, if◌then◌else◌,
}
use wesko_go_backend.Common.Text.{codes, eq}
use wesko_go_backend.Common.Exec.{Result, ok, err}
use wesko_go_backend.Common.Gorm.{DbError}
use wesko_go_backend.Auth.Errors.{Error}
use wesko_go_backend.Auth.Models.{User}
use wesko_go_backend.Auth.Dao.Rows.{
  UserModel, PasswordModel, UserDb, UserCondition, username_is, email_is, mobile_is, id_is,
}
use wesko_go_backend.Auth.Dao.Users.{register_user}
use wesko_go_backend.Auth.Dao.Users.Register.{Remembers, IsRegistered, register_user-IsRegistered}
use wesko_go_backend.Tests.World.{ann, nobody}

record Accounts : Type 0 where
  users : List UserModel
  passwords : List PasswordModel
  last : ℕ

abbrev not_found : DbError
not_found = record { record_not_found = true; duplicated_key = false; message = []; code = 1 }

abbrev other_failure : DbError
other_failure = record { record_not_found = false; duplicated_key = false; message = []; code = 2 }

abbrev meets : UserCondition → UserModel → Bool
meets (username_is name) u = eq u.username name
meets (email_is email) u = eq u.email email
meets (mobile_is mobile) u = elim u.mobile [ none ↦ false | some m ↦ eq m mobile ]
meets (id_is id) u = u.id == id

abbrev find_row : UserCondition → List UserModel → Result DbError UserModel
find_row c [] = err not_found
find_row c (u ∷ us) = let rest = find_row c us in if meets c u then ok u else rest

abbrev find_password : ℕ → List PasswordModel → Result DbError PasswordModel
find_password id [] = err not_found
find_password id (p ∷ ps) = let rest = find_password id ps in if p.user_id == id then ok p else rest

abbrev small_db : UserDb Accounts
small_db = record {
  create_user = λ m w.
      let r = record m { id = w.last + 1 } in
      (ok r, record w { users = r ∷ w.users; last = w.last + 1 });
  create_password = λ p w. (ok p, record w { passwords = p ∷ w.passwords });
  create_sso_account = λ m w. (ok m, w);
  first_user = λ c w. (find_row c w.users, w);
  first_password = λ id w. (find_password id w.passwords, w);
  first_sso_account = λ provider id w. (err not_found, w);
  updates_user = λ id f w. (ok tt, w);
  transaction = λ m w. m w;
}

small_db-Remembers : Remembers small_db
small_db-Remembers = record {
  commits = λ m w t u h. h;
  reads_user = λ m r w t h. ground arith;
  keeps_user = λ p q id m w t h k. ground arith;
  reads_password = λ p q w t h. ground arith;
  copies_password = λ p q w t h. ground arith;
}

abbrev empty_db : Accounts
empty_db = record { users = []; passwords = []; last = 0 }

abbrev registered : Result Error User × Accounts
registered = register_user small_db ann (codes "hash") empty_db

abbrev answer : Result Error User → User
answer (ok u) = u
answer (err e) = nobody

register_run : registered ≡ (ok (answer registered.0), registered.1)
unfolding register_user
register_run = refl

register_user-IsRegistered_example :
    IsRegistered small_db (answer registered.0) (codes "hash") registered.1
register_user-IsRegistered_example =
    register_user-IsRegistered small_db small_db-Remembers ann (answer registered.0) (codes "hash")
      empty_db registered.1 refl register_run
