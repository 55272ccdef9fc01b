-- ===== src/Auth/Service/Profile/Laws.antt =====
-- When a profile is completed.
use wesko_go_backend.Common.{ℕ, ◌≡◌, ◌↔◌, refl, inl, inr, true, false, arith, is_empty}
use wesko_go_backend.Common.Text.{Text, trim_space}
use wesko_go_backend.Common.Exec.{Result, ok, err, Call-cases, Result-cases}
use wesko_go_backend.Auth.Errors.{Error, username_already_exists, mobile_already_exists}
use wesko_go_backend.Auth.Models.{User, TokenPair}
use wesko_go_backend.Auth.Mobile.{normalize_indian_mobile}
use wesko_go_backend.Auth.Service.Base.{Service, issue_token_pair}
use wesko_go_backend.Auth.Service.Profile.{refuse_other, completed, store_profile, complete_profile}

-- The answer of a lookup names nobody but the user: it failed, or found that account.
abbrev pub IsOwn : ℕ → Result Error User → Type 0
IsOwn user_id (ok existing) = existing.id ≡ user_id
IsOwn user_id (err e) = Unit

-- The account with the new name and mobile, its profile complete and the rest as it was.
abbrev pub account_of : User → Text → Text → User
account_of old username mobile = record {
  id = old.id;
  username = username;
  email = old.email;
  mobile = mobile;
  mobile_verified = old.mobile_verified;
  role = old.role;
  is_profile_complete = true;
  created_at = old.created_at;
  updated_at = old.updated_at;
}

module _ {S : Type 0} (s : Service S) where
  refuse_other-ok :
      (taken : Error) (user_id : ℕ) (r : Result Error User) (w : S) {t : S}
      → refuse_other taken user_id r w ≡ (ok tt, t)
      → IsOwn user_id r × (t ≡ w)
  unfolding refuse_other
  refuse_other-ok taken user_id (ok existing) w h = ground arith
  refuse_other-ok taken user_id (err e) w h = (tt, cc)

  refuse_other_of_IsOwn :
      (taken : Error) (user_id : ℕ) (r : Result Error User) (w : S)
      → IsOwn user_id r
      → refuse_other taken user_id r w ≡ (ok tt, w)
  unfolding refuse_other
  refuse_other_of_IsOwn taken user_id (ok existing) w h = ground arith
  refuse_other_of_IsOwn taken user_id (err e) w h = refl

  -- The calls that store a profile in normal form.
  pub record IsStored (user_id : ℕ) (username mobile : Text) (new : User) (w : S) (pair : TokenPair)
      (t : S) : Type 0 where
    pub own_name : IsOwn user_id (s.repo.get_user_details_by_username username w).0
    pub own_mobile :
        IsOwn user_id
          (s.repo.get_user_by_mobile mobile (s.repo.get_user_details_by_username username w).1).0
    pub stored : S
    pub updated :
        s.repo.update_user new
          (s.repo.get_user_by_mobile mobile (s.repo.get_user_details_by_username username w).1).1
        ≡ (ok tt, stored)
    pub issued : issue_token_pair s new stored ≡ (ok pair, t)

  store_profile_sound :
      (old : User) (user_id : ℕ) (username mobile : Text) (w : S) {user : User} {pair : TokenPair}
      {t : S}
      → store_profile s old user_id username mobile w ≡ (ok (user, pair), t)
      → IsStored user_id username mobile (account_of old username mobile) w pair t
        × (user ≡ account_of old username mobile)
  unfolding store_profile completed
  store_profile_sound old user_id username mobile w h =
      let by_name = s.repo.get_user_details_by_username username w in
      let by_mobile = s.repo.get_user_by_mobile mobile by_name.1 in
      let new = account_of old username mobile in
      elim (Call-cases (refuse_other username_already_exists user_id by_name.0 by_name.1)) [
        | inr (e, v, q) ↦ ground arith
        | inl (_, v, q) ↦
            elim (Call-cases (refuse_other mobile_already_exists user_id by_mobile.0 by_mobile.1)) [
              | inr (e, v', p) ↦
                  ground
                    (arith, refuse_other-ok username_already_exists user_id by_name.0 by_name.1 q)
              | inl (_, v', p) ↦
                  let (own, same) =
                    refuse_other-ok username_already_exists user_id by_name.0 by_name.1 q in
                  let (own', same') =
                    refuse_other-ok mobile_already_exists user_id by_mobile.0 by_mobile.1 p in
                  elim (Call-cases (s.repo.update_user new by_mobile.1)) [
                    | inr (e, x, p') ↦ ground arith
                    | inl (_, stored, p') ↦ elim (Call-cases (issue_token_pair s new stored)) [
                      | inr (e, x, p'') ↦ ground arith
                      | inl (pair, x, p'') ↦ (
                        record {
                          own_name = own;
                          own_mobile = own';
                          stored = stored;
                          updated = ground arith;
                          issued = ground arith;
                        },
                        ground arith,
                      )
                    ]
                  ]
            ]
      ]

  store_profile_complete :
      (old : User) (user_id : ℕ) (username mobile : Text) (w : S) {pair : TokenPair} {t : S}
      → IsStored user_id username mobile (account_of old username mobile) w pair t
      → store_profile s old user_id username mobile w
        ≡ (ok (account_of old username mobile, pair), t)
  unfolding store_profile completed
  store_profile_complete old user_id username mobile w c =
      let by_name = s.repo.get_user_details_by_username username w in
      let by_mobile = s.repo.get_user_by_mobile mobile by_name.1 in
      ground (
        arith,
        refuse_other_of_IsOwn username_already_exists user_id by_name.0 by_name.1 c.own_name,
        refuse_other_of_IsOwn mobile_already_exists user_id by_mobile.0 by_mobile.1 c.own_mobile,
        c.updated,
        c.issued,
      )

  -- The calls of a completion that succeeds.
  pub record IsCompleted (user_id : ℕ) (raw_username raw_mobile : Text) (w : S) (user : User)
      (pair : TokenPair) (t : S) : Type 0 where
    pub old : User
    pub loaded : S
    pub known : s.repo.get_user_by_id user_id w ≡ (ok old, loaded)
    pub open_profile : old.is_profile_complete ≡ false
    pub named : is_empty (trim_space raw_username) ≡ false
    pub mobile : Text
    pub normal : normalize_indian_mobile raw_mobile ≡ ok mobile
    pub result : user ≡ account_of old (trim_space raw_username) mobile
    pub stored :
        IsStored user_id
          (trim_space raw_username)
          mobile
          (account_of old (trim_space raw_username) mobile)
          loaded
          pair
          t

  complete_profile_sound :
      (user_id : ℕ) (raw_username raw_mobile : Text) (w : S) {user : User} {pair : TokenPair}
      {t : S}
      → complete_profile s user_id raw_username raw_mobile w ≡ (ok (user, pair), t)
      → IsCompleted user_id raw_username raw_mobile w user pair t
  unfolding complete_profile
  complete_profile_sound user_id raw_username raw_mobile w {user} {pair} {t} h =
      elim (Call-cases (s.repo.get_user_by_id user_id w)) [
        | inr (e, v, q) ↦ ground arith
        | inl (old, loaded, q) ↦ elim (Result-cases (normalize_indian_mobile raw_mobile)) [
          | inr (e, q') ↦ ground arith
          | inl (mobile, q') ↦
              let (stored, same) =
                store_profile_sound old user_id (trim_space raw_username) mobile loaded
                  {user = user} {pair = pair} {t = t} (ground arith) in
              record {
                old = old;
                loaded = loaded;
                known = q;
                open_profile = ground arith;
                named = ground arith;
                mobile = mobile;
                normal = q';
                result = same;
                stored = stored;
              }
        ]
      ]

  complete_profile_complete :
      (user_id : ℕ) (raw_username raw_mobile : Text) (w : S) {user : User} {pair : TokenPair}
      {t : S}
      → IsCompleted user_id raw_username raw_mobile w user pair t
      → complete_profile s user_id raw_username raw_mobile w ≡ (ok (user, pair), t)
  unfolding complete_profile
  complete_profile_complete user_id raw_username raw_mobile w c = ground (
    arith,
    c.known,
    c.open_profile,
    c.named,
    c.normal,
    c.result,
    store_profile_complete c.old user_id (trim_space raw_username) c.mobile c.loaded c.stored,
  )

-- A profile is completed exactly if the account is known and not complete, the trimmed name is not
-- empty, the mobile normalises, the lookups of the name and of the mobile find no account but this
-- one (a lookup that fails, for whatever reason, finds none), the account with the name, the mobile
-- and the flag set, and nothing else changed, is stored, and tokens are issued to it.
pub complete_profile_iff :
    {S : Type 0} (s : Service S) (user_id : ℕ) (raw_username raw_mobile : Text) (w : S)
    (user : User) (pair : TokenPair) (t : S)
    → (complete_profile s user_id raw_username raw_mobile w ≡ (ok (user, pair), t))
      ↔ IsCompleted s user_id raw_username raw_mobile w user pair t
complete_profile_iff s user_id raw_username raw_mobile w user pair t = (
  complete_profile_sound s user_id raw_username raw_mobile w,
  complete_profile_complete s user_id raw_username raw_mobile w,
)
