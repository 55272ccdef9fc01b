-- ===== src/Auth/Service/Login/Laws.antt =====
-- When a login succeeds, and what its failures tell.
use wesko_go_backend.Common.{◌≡◌, ◌≢◌, ◌↔◌, inl, inr, true, false, arith, is_empty}
use wesko_go_backend.Common.Text.{Text, trim_space}
use wesko_go_backend.Common.Exec.{ok, err, Call-cases}
use wesko_go_backend.Auth.Errors.{user_not_found, is_user_not_found_self}
use wesko_go_backend.Auth.Models.{User}
use wesko_go_backend.Auth.Service.Base.{Service}
use wesko_go_backend.Auth.Service.Login.{hide_not_found, validate_login}

-- The calls of a login that succeeds: the trimmed name has an account, the account has a hash, and
-- the password matches it.
pub record IsAuthenticated {S : Type 0} (s : Service S) (username password : Text) (w : S)
    (user : User) (t : S) : Type 0 where
  pub name : is_empty (trim_space username) ≡ false
  pub secret : is_empty password ≡ false
  pub hash : Text
  pub middle : S
  pub found : s.repo.get_user_details_by_username (trim_space username) w ≡ (ok user, middle)
  pub hashed : s.repo.get_password_hash_by_user_id user.id middle ≡ (ok hash, t)
  pub matches : s.platform.compare_hash_and_password hash password ≡ true

module _ {S : Type 0} (s : Service S) (username password : Text) (w : S) where
  validate_login_sound :
      {user : User} {t : S}
      → validate_login s username password w ≡ (ok user, t)
      → IsAuthenticated s username password w user t
  unfolding validate_login
  validate_login_sound h =
      elim (Call-cases (s.repo.get_user_details_by_username (trim_space username) w)) [
        | inr (e, v, q) ↦ ground arith
        | inl (user, middle, q) ↦
            elim (Call-cases (s.repo.get_password_hash_by_user_id user.id middle)) [
              | inr (e, v, q') ↦ ground arith
              | inl (hash, v, q') ↦ record {
                name = ground arith;
                secret = ground arith;
                hash = hash;
                middle = middle;
                found = ground arith;
                hashed = ground arith;
                matches = ground arith;
              }
            ]
      ]

  validate_login_complete :
      {user : User} {t : S}
      → IsAuthenticated s username password w user t
      → validate_login s username password w ≡ (ok user, t)
  unfolding validate_login
  validate_login_complete a = ground (arith, a.name, a.secret, a.found, a.hashed, a.matches)

  -- No error of a login is that the account is unknown.
  pub validate_login-hides : (validate_login s username password w).0 ≢ err user_not_found
  unfolding validate_login hide_not_found
  validate_login-hides = ground (arith, is_user_not_found_self)

-- A login returns a user exactly if the trimmed name is not empty and has that account, the
-- password is not empty, and it matches the hash that is stored for the account; the state is then
-- the one that the two lookups leave.
pub validate_login_iff :
    {S : Type 0} (s : Service S) (username password : Text) (w : S) (user : User) (t : S)
    → (validate_login s username password w ≡ (ok user, t))
      ↔ IsAuthenticated s username password w user t
validate_login_iff s username password w user t =
    (validate_login_sound s username password w, validate_login_complete s username password w)
