-- ===== src/Auth/Dao/Users/Laws.antt =====
-- What the rows of dbase/userdao/postgres.go keep of an account, and when a lookup finds nobody.
use wesko_go_backend.Common.{ℕ, ◌≡◌, ◌↔◌, refl, inl, inr, true, [], ◌∷◌, arith}
use wesko_go_backend.Common.Exec.{err, Call-cases}
use wesko_go_backend.Common.Gorm.{DbError}
use wesko_go_backend.Common.Text.{Text}
use wesko_go_backend.Auth.Errors.{user_not_found}
use wesko_go_backend.Auth.Models.{Time, User}
use wesko_go_backend.Auth.Dao.Rows.{
  UserDb, UserCondition, to_domain_user, new_user_model, mobile_column, or_empty, or_false,
}
use wesko_go_backend.Auth.Dao.Users.{find_user, on_missing_user}

or_empty-mobile_column : (mobile : Text) → or_empty (mobile_column mobile) ≡ mobile
unfolding or_empty mobile_column
or_empty-mobile_column [] = refl
or_empty-mobile_column (c ∷ s) = refl

-- An account that is written as a row, with the id and the times that the database gives it, is
-- read as it was but for these; an account without a mobile has none in its row.
pub to_domain_user-new_user_model :
    (user : User) (id : ℕ) (created updated : Time)
    → to_domain_user
        (record (new_user_model user) { id = id; created_at = created; updated_at = updated })
      ≡ record user { id = id; created_at = created; updated_at = updated }
unfolding to_domain_user new_user_model or_false
to_domain_user-new_user_model user id created updated = rw (or_empty-mobile_column user.mobile) refl

module _ {S : Type 0} (db : UserDb S) where
  find_user_sound :
      (condition : UserCondition) (w t : S)
      → find_user db condition w ≡ (err user_not_found, t)
      → (e : DbError) × (db.first_user condition w ≡ (err e, t)) × (e.record_not_found ≡ true)
  unfolding find_user on_missing_user
  find_user_sound condition w t h = elim (Call-cases (db.first_user condition w)) [
    | inl (m, u, q) ↦ absurd (ground arith)
    | inr (e, u, q) ↦ (e, ground arith, ground arith)
  ]

  find_user_complete :
      (condition : UserCondition) (w t : S)
      → (e : DbError) × (db.first_user condition w ≡ (err e, t)) × (e.record_not_found ≡ true)
      → find_user db condition w ≡ (err user_not_found, t)
  unfolding find_user on_missing_user
  find_user_complete condition w t (e, q, r) = ground (arith, q, r)

  -- A lookup of an account fails as unknown exactly if the database finds no row for its
  -- condition: any other error of the database stays apart from it.
  pub find_user_iff :
      (condition : UserCondition) (w t : S)
      → (find_user db condition w ≡ (err user_not_found, t))
        ↔ ((e : DbError) × (db.first_user condition w ≡ (err e, t)) × (e.record_not_found ≡ true))
  find_user_iff condition w t = (find_user_sound condition w t, find_user_complete condition w t)
