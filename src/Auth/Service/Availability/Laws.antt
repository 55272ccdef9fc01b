-- ===== src/Auth/Service/Availability/Laws.antt =====
-- When a name, an address and a mobile are free for a signup.
use wesko_go_backend.Common.{◌≡◌, ◌↔◌, refl, inl, inr, arith}
use wesko_go_backend.Common.Text.{Text}
use wesko_go_backend.Common.Exec.{Result, ok, err, pure, Call-cases}
use wesko_go_backend.Auth.Errors.{
  Error, user_not_found, cache_miss, username_already_exists, email_already_exists,
  mobile_already_exists, is_user_not_found_sound, is_cache_miss_sound, is_user_not_found_self,
  is_cache_miss_self,
}
use wesko_go_backend.Auth.Models.{User, RegisterRequest}
use wesko_go_backend.Auth.Ports.{Call}
use wesko_go_backend.Auth.Service.Base.{Service}
use wesko_go_backend.Auth.Service.Availability.{
  refuse_taken, after_pending, pending_conflict, on_index, ensure_no_account, ensure_no_pending,
  ensure_signup_availability,
}

-- The lookup found no account.
abbrev pub IsNobody : Result Error User → Type 0
IsNobody (ok user) = user.id ≡ 0
IsNobody (err e) = e ≡ user_not_found

module _ {S : Type 0} where
  refuse_taken_sound :
      (taken : Error) (r : Result Error User) (w : S) {t : S}
      → refuse_taken taken r w ≡ (ok tt, t)
      → IsNobody r × (t ≡ w)
  unfolding refuse_taken
  refuse_taken_sound taken (ok user) w h = ground arith
  refuse_taken_sound taken (err e) w h = ground (arith, is_user_not_found_sound e)

  refuse_taken_complete :
      (taken : Error) (r : Result Error User) (w : S)
      → IsNobody r
      → refuse_taken taken r w ≡ (ok tt, w)
  unfolding refuse_taken
  refuse_taken_complete taken (ok user) w h = ground arith
  refuse_taken_complete taken (err e) w h = rw (h, is_user_not_found_self) refl

module _ {S : Type 0} (s : Service S) (req : RegisterRequest) where
  abbrev by_username : S → Result Error User × S
  by_username w = s.repo.get_user_details_by_username req.username w

  abbrev by_email : S → Result Error User × S
  by_email w = s.repo.get_user_by_email req.email (by_username w).1

  abbrev by_mobile : S → Result Error User × S
  by_mobile w = s.repo.get_user_by_mobile req.mobile (by_email w).1

  -- No account has the name, the address or the mobile.
  pub record HasNoAccount (w t : S) : Type 0 where
    pub no_name : IsNobody (by_username w).0
    pub no_email : IsNobody (by_email w).0
    pub no_mobile : IsNobody (by_mobile w).0
    pub looked_up : t ≡ (by_mobile w).1

  ensure_no_account_sound :
      (w : S) {t : S} → ensure_no_account s req w ≡ (ok tt, t) → HasNoAccount w t
  unfolding ensure_no_account
  ensure_no_account_sound w {t} h =
      elim (Call-cases (refuse_taken username_already_exists (by_username w).0 (by_username w).1)) [
        | inr (e, v, q) ↦ ground arith
        | inl (_, v, q) ↦
            let (n, same) = refuse_taken_sound username_already_exists _ _ q in
            elim (Call-cases (refuse_taken email_already_exists (by_email w).0 (by_email w).1)) [
              | inr (e, v', p) ↦ ground (arith, same)
              | inl (_, v', p) ↦
                  let (m, same') = refuse_taken_sound email_already_exists _ _ p in
                  let (k, same'') =
                    refuse_taken_sound mobile_already_exists (by_mobile w).0 (by_mobile w).1 {t = t}
                      (ground (arith, same, same')) in
                  record { no_name = n; no_email = m; no_mobile = k; looked_up = same'' }
            ]
      ]

  ensure_no_account_complete :
      (w : S) {t : S} → HasNoAccount w t → ensure_no_account s req w ≡ (ok tt, t)
  unfolding ensure_no_account
  ensure_no_account_complete w h = ground (
    arith,
    refuse_taken_complete username_already_exists (by_username w).0 (by_username w).1 h.no_name,
    refuse_taken_complete email_already_exists (by_email w).0 (by_email w).1 h.no_email,
    refuse_taken_complete mobile_already_exists (by_mobile w).0 (by_mobile w).1 h.no_mobile,
    h.looked_up,
  )

  -- What the check of one index of pending signups lets through, from the index's answer: a miss,
  -- if the rest lets it through, or a hit whose signup is gone, and then the rest is not looked at.
  abbrev pub Passes : Result Error Text → S → (S → Type 0) → S → Type 0
  Passes (ok mobile) v rest t = s.pending_signup_store.get_by_mobile mobile v ≡ (err cache_miss, t)
  Passes (err e) v rest t = (e ≡ cache_miss) × rest t

  on_index_sound :
      (r : Result Error Text) (next : Call S Unit) (v : S) (rest : S → Type 0) {t : S}
      → (next v ≡ (ok tt, t) → rest t)
      → on_index s req r next v ≡ (ok tt, t)
      → Passes r v rest t
  unfolding on_index pending_conflict after_pending
  on_index_sound (ok mobile) next v rest {t} k h =
      elim (Call-cases (s.pending_signup_store.get_by_mobile mobile v)) [
        | inl (pending, u, q) ↦ ground arith
        | inr (e, u, q) ↦ ground (arith, is_cache_miss_sound e)
      ]
  on_index_sound (err e) next v rest {t} k h =
      (ground (arith, is_cache_miss_sound e), k (ground arith))

  on_index_complete :
      (r : Result Error Text) (next : Call S Unit) (v : S) (rest : S → Type 0) {t : S}
      → (rest t → next v ≡ (ok tt, t))
      → Passes r v rest t
      → on_index s req r next v ≡ (ok tt, t)
  unfolding on_index pending_conflict after_pending
  on_index_complete (ok mobile) next v rest k h = ground (arith, h, is_cache_miss_self)
  on_index_complete (err e) next v rest k (h, p) = rw (h, is_cache_miss_self) (k p)

  abbrev names : S → Result Error Text × S
  names w = s.pending_signup_store.get_mobile_by_username req.username w

  abbrev emails : S → Result Error Text × S
  emails w = s.pending_signup_store.get_mobile_by_email req.email (names w).1

  abbrev mobiles : S → Result Error Text × S
  mobiles w = s.pending_signup_store.get_mobile_by_mobile req.mobile (emails w).1

  -- No pending signup stands in the way, as far as the three indices tell.
  abbrev pub IsUnclaimed : S → S → Type 0
  IsUnclaimed w t =
      Passes (names w).0 (names w).1
        (λ t.
          Passes (emails w).0 (emails w).1
            (λ t. Passes (mobiles w).0 (mobiles w).1 (λ t. t ≡ (mobiles w).1) t) t)
        t

  ensure_no_pending_sound :
      (w : S) {t : S} → ensure_no_pending s req w ≡ (ok tt, t) → IsUnclaimed w t
  unfolding ensure_no_pending
  ensure_no_pending_sound w h =
      on_index_sound (names w).0 _ (names w).1 _
        (on_index_sound (emails w).0 _ (emails w).1 _
          (on_index_sound (mobiles w).0 (pure tt) (mobiles w).1 _ (λ e. ground arith)))
        h

  ensure_no_pending_complete :
      (w : S) {t : S} → IsUnclaimed w t → ensure_no_pending s req w ≡ (ok tt, t)
  unfolding ensure_no_pending
  ensure_no_pending_complete w h =
      on_index_complete (names w).0 _ (names w).1 _
        (on_index_complete (emails w).0 _ (emails w).1 _
          (on_index_complete (mobiles w).0 (pure tt) (mobiles w).1 _ (λ e. ground arith)))
        h

  -- Both checks let the request through.
  pub record IsAvailable (w t : S) : Type 0 where
    pub checked : S
    pub no_account : HasNoAccount w checked
    pub unclaimed : IsUnclaimed checked t

  -- The check of a signup passes exactly if the three lookups of accounts find nobody and the three
  -- indices of pending signups are missed, or the first that is hit names a signup that is gone.
  pub ensure_signup_availability_iff :
      (w t : S) → (ensure_signup_availability s req w ≡ (ok tt, t)) ↔ IsAvailable w t
  unfolding ensure_signup_availability
  ensure_signup_availability_iff w t = (to, back)
    where
      to : ensure_signup_availability s req w ≡ (ok tt, t) → IsAvailable w t
      to h = elim (Call-cases (ensure_no_account s req w)) [
        | inr (e, v, q) ↦ ground arith
        | inl (_, v, q) ↦ record {
          checked = v;
          no_account = ensure_no_account_sound w (ground arith);
          unclaimed = ensure_no_pending_sound v (ground arith);
        }
      ]

      back : IsAvailable w t → ensure_signup_availability s req w ≡ (ok tt, t)
      back a = ground (
        arith,
        ensure_no_account_complete w a.no_account,
        ensure_no_pending_complete a.checked a.unclaimed,
      )
