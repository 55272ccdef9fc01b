-- ===== src/Auth/Service/Signup/Status.antt =====
-- What the status of a signup answers.
use wesko_go_backend.Common.{
  ◌≡◌, ◌↔◌, ◌∙◌, refl, inl, inr, true, false, arith, ltb, Bool-cases, if◌then◌else◌,
}
use wesko_go_backend.Common.Text.{Text, codes}
use wesko_go_backend.Common.Exec.{ok, err, Call-cases, Result-cases}
use wesko_go_backend.Auth.Errors.{Error, is_cache_miss, is_user_not_found}
use wesko_go_backend.Auth.Models.{User, PendingSignup}
use wesko_go_backend.Auth.Mobile.{normalize_indian_mobile}
use wesko_go_backend.Auth.Service.Base.{Service}
use wesko_go_backend.Auth.Service.Signup.{account_status, status_from, signup_status}

module _ {S : Type 0} (s : Service S) where
  -- The store has no signup of the mobile that is alive.
  pub data NotPending (mobile : Text) (w : S) : S → Type 0 where
    missed :
        (e : Error) (v : S)
        → s.pending_signup_store.get_by_mobile mobile w ≡ (err e, v)
        → is_cache_miss e ≡ true
        → NotPending mobile w v
    dead :
        (pending : PendingSignup) (u : S)
        → s.pending_signup_store.get_by_mobile mobile w ≡ (ok pending, u)
        → ltb (s.platform.now u).0 pending.expires_at ≡ false
        → NotPending mobile w (s.platform.now u).1

  -- What is answered for a mobile, from `w` to `t`: it is pending while its signup is alive; then
  -- the account decides, which is completed if it is verified.
  pub data Status (mobile : Text) (w : S) : Text → S → Type 0 where
    is_pending :
        (pending : PendingSignup) (u : S)
        → s.pending_signup_store.get_by_mobile mobile w ≡ (ok pending, u)
        → ltb (s.platform.now u).0 pending.expires_at ≡ true
        → Status mobile w (codes "pending") (s.platform.now u).1
    is_completed :
        (user : User) (v t : S)
        → NotPending mobile w v
        → s.repo.get_user_by_mobile mobile v ≡ (ok user, t)
        → user.mobile_verified ≡ true
        → Status mobile w (codes "completed") t
    is_unverified :
        (user : User) (v t : S)
        → NotPending mobile w v
        → s.repo.get_user_by_mobile mobile v ≡ (ok user, t)
        → user.mobile_verified ≡ false
        → Status mobile w (codes "expired") t
    is_unknown :
        (e : Error) (v t : S)
        → NotPending mobile w v
        → s.repo.get_user_by_mobile mobile v ≡ (err e, t)
        → is_user_not_found e ≡ true
        → Status mobile w (codes "expired") t

  account_sound :
      (mobile : Text) (w v : S) (text : Text) (t : S)
      → NotPending mobile w v
      → account_status s
          (s.repo.get_user_by_mobile mobile v).0
          (s.repo.get_user_by_mobile mobile v).1
        ≡ (ok text, t)
      → Status mobile w text t
  unfolding account_status
  account_sound mobile w v text t n h = elim (Call-cases (s.repo.get_user_by_mobile mobile v)) [
    | inl (user, x, q) ↦ elim (Bool-cases user.mobile_verified) [
      | inl known ↦
          let (e, k) : (codes "completed" ≡ text) × (x ≡ t) = ground arith in
          rw (← e, ← k) (is_completed user v x n q known)
      | inr unknown ↦
          let (e, k) : (codes "expired" ≡ text) × (x ≡ t) = ground arith in
          rw (← e, ← k) (is_unverified user v x n q unknown)
    ]
    | inr (e, x, q) ↦ elim (Bool-cases (is_user_not_found e)) [
      | inl known ↦
          let (e', k) : (codes "expired" ≡ text) × (x ≡ t) = ground arith in
          rw (← e', ← k) (is_unknown e v x n q known)
      | inr unknown ↦ ground arith
    ]
  ]

  account_complete :
      (mobile : Text) (v : S) (user : User) (t : S)
      → s.repo.get_user_by_mobile mobile v ≡ (ok user, t)
      → account_status s
          (s.repo.get_user_by_mobile mobile v).0
          (s.repo.get_user_by_mobile mobile v).1
        ≡ (ok (if user.mobile_verified then codes "completed" else codes "expired"), t)
  unfolding account_status
  account_complete mobile v user t q = ground (arith, q)

  account_unknown :
      (mobile : Text) (v : S) (e : Error) (t : S)
      → s.repo.get_user_by_mobile mobile v ≡ (err e, t)
      → is_user_not_found e ≡ true
      → account_status s
          (s.repo.get_user_by_mobile mobile v).0
          (s.repo.get_user_by_mobile mobile v).1
        ≡ (ok (codes "expired"), t)
  unfolding account_status
  account_unknown mobile v e t q known = ground (arith, q, known)

  signup_status_sound :
      (raw mobile : Text) (w : S) (text : Text) (t : S)
      → normalize_indian_mobile raw ≡ ok mobile
      → signup_status s raw w ≡ (ok text, t)
      → Status mobile w text t
  unfolding signup_status status_from
  signup_status_sound raw mobile w text t n h =
      elim (Call-cases (s.pending_signup_store.get_by_mobile mobile w)) [
        | inl (pending, u, q) ↦ elim (Bool-cases (ltb (s.platform.now u).0 pending.expires_at)) [
          | inl alive ↦
              let (e, k) : (codes "pending" ≡ text) × ((s.platform.now u).1 ≡ t) = ground arith in
              rw (← e, ← k) (is_pending pending u q alive)
          | inr over ↦
              account_sound mobile w (s.platform.now u).1 text t (dead pending u q over)
                (ground arith)
        ]
        | inr (e, u, q) ↦
            account_sound mobile w u text t (missed e u q (ground arith)) (ground arith)
      ]

  signup_status-NotPending :
      (raw mobile : Text) (w v : S)
      → normalize_indian_mobile raw ≡ ok mobile
      → NotPending mobile w v
      → signup_status s raw w
        ≡ account_status s
            (s.repo.get_user_by_mobile mobile v).0
            (s.repo.get_user_by_mobile mobile v).1
  unfolding signup_status status_from
  signup_status-NotPending raw mobile w v n (missed e u q miss) = ground (arith, n, q, miss)
  signup_status-NotPending raw mobile w v n (dead pending u q over) = ground (arith, n, q, over)

  signup_status_complete :
      (raw mobile : Text) (w : S) (text : Text) (t : S)
      → normalize_indian_mobile raw ≡ ok mobile
      → Status mobile w text t
      → signup_status s raw w ≡ (ok text, t)
  unfolding signup_status status_from
  signup_status_complete raw mobile w text t n (is_pending pending u q alive) =
      ground (arith, n, q, alive)
  signup_status_complete raw mobile w text t n (is_completed user v x np q known) =
      signup_status-NotPending raw mobile w v n np
      ∙ account_complete mobile v user x q
      ∙ rw known refl
  signup_status_complete raw mobile w text t n (is_unverified user v x np q unknown) =
      signup_status-NotPending raw mobile w v n np
      ∙ account_complete mobile v user x q
      ∙ rw unknown refl
  signup_status_complete raw mobile w text t n (is_unknown e v x np q known) =
      signup_status-NotPending raw mobile w v n np ∙ account_unknown mobile v e x q known

-- The status of a signup is answered exactly if the mobile normalises, and is pending while the
-- mobile has a pending signup that is alive, and else completed if its account is verified, and
-- expired if it is not or there is none.
pub signup_status_iff :
    {S : Type 0} (s : Service S) (raw : Text) (w : S) (text : Text) (t : S)
    → (signup_status s raw w ≡ (ok text, t))
      ↔ ((mobile : Text) × (normalize_indian_mobile raw ≡ ok mobile) × Status s mobile w text t)
signup_status_iff s raw w text t = (to, back)
  where
    to :
        signup_status s raw w ≡ (ok text, t)
        → (mobile : Text) × (normalize_indian_mobile raw ≡ ok mobile) × Status s mobile w text t
    to h = elim (Result-cases (normalize_indian_mobile raw)) [
      | inl (mobile, n) ↦ (mobile, n, signup_status_sound s raw mobile w text t n h)
      | inr (e, n) ↦ unfold signup_status in ground arith
    ]

    back :
        (mobile : Text) × (normalize_indian_mobile raw ≡ ok mobile) × Status s mobile w text t
        → signup_status s raw w ≡ (ok text, t)
    back (mobile, n, c) = signup_status_complete s raw mobile w text t n c
