-- ===== src/Auth/Dao/Users/Register.antt =====
-- Registering an account in the database, and finding it again.
use wesko_go_backend.Common.{ℕ, ◌≡◌, ◌≢◌, inl, inr, Bool, is_empty, arith}
use wesko_go_backend.Common.Exec.{ok, Call-cases}
use wesko_go_backend.Common.Gorm.{DbError, DbCall}
use wesko_go_backend.Common.Text.{Text}
use wesko_go_backend.Auth.Models.{User}
use wesko_go_backend.Auth.Dao.Rows.{
  UserModel, PasswordModel, UserDb, id_is, username_is, email_is, mobile_is, to_domain_user,
  new_user_model,
}
use wesko_go_backend.Auth.Dao.Users.{
  insert_user, add_password, register_user, explain, is_taken, get_user_by_id,
  get_password_hash_by_user_id, find_user,
}

-- What gorm and the database do: a committed transaction did what its function did; a row that was
-- created is found by its key; a password row is created as it was given; and creating one does not
-- touch the accounts.
pub record Remembers {S : Type 0} (db : UserDb S) : Type 0 where
  pub commits :
      (m : DbCall S User) (w t : S) (u : User) → db.transaction m w ≡ (ok u, t) → m w ≡ (ok u, t)
  pub reads_user :
      (m r : UserModel) (w t : S)
      → db.create_user m w ≡ (ok r, t)
      → db.first_user (id_is r.id) t ≡ (ok r, t)
  pub keeps_user :
      (p q : PasswordModel) (id : ℕ) (m : UserModel) (w t : S)
      → db.create_password p w ≡ (ok q, t)
      → db.first_user (id_is id) w ≡ (ok m, w)
      → db.first_user (id_is id) t ≡ (ok m, t)
  pub reads_password :
      (p q : PasswordModel) (w t : S)
      → db.create_password p w ≡ (ok q, t)
      → db.first_password p.user_id t ≡ (ok q, t)
  pub copies_password :
      (p q : PasswordModel) (w t : S)
      → db.create_password p w ≡ (ok q, t)
      → q.password_hash ≡ p.password_hash

-- What a registered account can be found by.
pub record IsRegistered {S : Type 0} (db : UserDb S) (user : User) (hash : Text) (t : S)
    : Type 0 where
  pub found : get_user_by_id db user.id t ≡ (ok user, t)
  pub hashed : get_password_hash_by_user_id db user.id t ≡ (ok hash, t)

module _ {S : Type 0} (db : UserDb S) (law : Remembers db) where
  insert_user-IsRegistered :
      (user v : User) (hash : Text) (w t : S)
      → is_empty hash ≡ Bool.false
      → insert_user db user hash w ≡ (ok v, t)
      → IsRegistered db v hash t
  unfolding insert_user add_password get_user_by_id find_user get_password_hash_by_user_id
      to_domain_user
  insert_user-IsRegistered user v hash w t given h =
      elim (Call-cases (db.create_user (new_user_model user) w)) [
        | inr (e, a, q) ↦ absurd (ground arith)
        | inl (row, a, q) ↦
            let password : PasswordModel = record {
              user_id = row.id;
              password_hash = hash;
              created_at = 0;
              updated_at = 0;
            } in
            elim (Call-cases (db.create_password password a)) [
              | inr (e, b, r) ↦ absurd (ground arith)
              | inl (stored, b, r) ↦
                  let seen =
                    law.keeps_user password stored row.id row a b r
                      (law.reads_user (new_user_model user) row w a q) in
                  let read = law.reads_password password stored a b r in
                  let same = law.copies_password password stored a b r in
                  record { found = ground arith; hashed = ground arith }
            ]
      ]

  -- Asking which column is taken ends in an error.
  explain-fails : (user v : User) (e : DbError) (w t : S) → explain db user e w ≢ (ok v, t)
  unfolding explain is_taken
  explain-fails user v e w t h = elim (Call-cases (db.first_user (username_is user.username) w)) [
    | inl (m, a, q) ↦ ground arith
    | inr (d, a, q) ↦ elim (Call-cases (db.first_user (email_is user.email) a)) [
      | inl (m, b, r) ↦ ground arith
      | inr (d', b, r) ↦ elim (Call-cases (db.first_user (mobile_is user.mobile) b)) [
        | inl (m, c, s) ↦ ground arith
        | inr (d'', c, s) ↦ ground arith
      ]
    ]
  ]

  register_user-commits :
      (user v : User) (hash : Text) (w t : S)
      → register_user db user hash w ≡ (ok v, t)
      → db.transaction (insert_user db user hash) w ≡ (ok v, t)
  unfolding register_user
  register_user-commits user v hash w t h =
      elim (Call-cases (db.transaction (insert_user db user hash) w)) [
        | inl (u, a, q) ↦ ground arith
        | inr (e, a, q) ↦ let fails = explain-fails user v e a t in absurd (ground arith)
      ]

  -- With a database that remembers its rows, an account that was registered with a password is
  -- found by its id as it was answered, and its password hash is the one that was given.
  pub register_user-IsRegistered :
      (user v : User) (hash : Text) (w t : S)
      → is_empty hash ≡ Bool.false
      → register_user db user hash w ≡ (ok v, t)
      → IsRegistered db v hash t
  register_user-IsRegistered user v hash w t given h =
      insert_user-IsRegistered user v hash w t given
        (law.commits (insert_user db user hash) w t v (register_user-commits user v hash w t h))
