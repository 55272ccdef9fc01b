-- ===== src/Memory/PendingSignup/History.antt =====
-- The store of pending signups after any sequence of calls.
use wesko_go_backend.Common.{
  ◌≡◌, ◌≢◌, ◌≤◌, ◌∙◌, refl, ap, inl, inr, false, Option, some, none, List, [], ◌∷◌, arith, leb, ltb,
  Bool-cases, if◌then◌else◌,
}
use wesko_go_backend.Common.Text.{Text, eq, eq_refl, eq_iff}
use wesko_go_backend.Common.Exec.{Result, ok, err}
use wesko_go_backend.Auth.Errors.{Error, cache_miss}
use wesko_go_backend.Auth.Models.{Time, PendingSignup}
use wesko_go_backend.Memory.PendingSignup.Laws.{
  IsSound, delete_locked-IsSound, delete_locked-signups,
}
use wesko_go_backend.Memory.PendingSignup.Save.{save_ok, save-IsSound}
use wesko_go_backend.Memory.PendingSignup.{
  PendingStore, new_pending_signup_store, delete_entry, delete_locked, add_signup, save, on_signup,
  get_by_mobile, delete_by_mobile, on_index, keep_mobile, get_mobile_by_username,
  get_mobile_by_email, get_mobile_by_mobile,
}

-- A call, with what it reads of the clock.
pub data Event : Type 0 where
  saved : Time → PendingSignup → Event
  looked_up : Time → Text → Event
  deleted : Text → Event
  by_username by_email by_mobile : Time → Text → Event

unfoldable pub apply : Event → PendingStore → PendingStore
apply (saved now p) s = (save now p s).1
apply (looked_up now m) s = (get_by_mobile now m s).1
apply (deleted m) s = (delete_by_mobile m s).1
apply (by_username now u) s = (get_mobile_by_username now u s).1
apply (by_email now e) s = (get_mobile_by_email now e s).1
apply (by_mobile now m) s = (get_mobile_by_mobile now m s).1

-- The store after a history of calls on a store, its last call first.
abbrev pub replay_from : PendingStore → List Event → PendingStore
replay_from s [] = s
replay_from s (e ∷ h) = apply e (replay_from s h)

pub replay : List Event → PendingStore
replay h = replay_from new_pending_signup_store h

get_by_mobile-IsSound :
    (now : Time) (m : Text) (s : PendingStore) → IsSound s → IsSound (get_by_mobile now m s).1
unfolding get_by_mobile
get_by_mobile-IsSound now m s v = go (s.signups m)
  where
    go : (o : Option PendingSignup) → IsSound (on_signup now m o s).1
    go none = v
    go (some p) = elim (Bool-cases (ltb p.expires_at now)) [
      | inl dead ↦ rw dead (delete_locked-IsSound m s v)
      | inr alive ↦ rw alive v
    ]

on_index-IsSound :
    (now : Time) (o : Option Text) (s : PendingStore) → IsSound s → IsSound (on_index now o s).1
unfolding on_index keep_mobile
on_index-IsSound now none s v = v
on_index-IsSound now (some m) s v = go (get_by_mobile now m s) (get_by_mobile-IsSound now m s v)
  where
    go : (c : Result Error PendingSignup × PendingStore) → IsSound c.1 → IsSound (keep_mobile m c).1
    go (ok p, t) w = w
    go (err e, t) w = w

apply-IsSound : (e : Event) (s : PendingStore) → IsSound s → IsSound (apply e s)
unfolding apply delete_by_mobile get_mobile_by_username get_mobile_by_email get_mobile_by_mobile
apply-IsSound (saved now p) s v = save-IsSound now p s v
apply-IsSound (looked_up now m) s v = get_by_mobile-IsSound now m s v
apply-IsSound (deleted m) s v = delete_locked-IsSound m s v
apply-IsSound (by_username now u) s v = on_index-IsSound now (s.by_username u) s v
apply-IsSound (by_email now e) s v = on_index-IsSound now (s.by_email e) s v
apply-IsSound (by_mobile now m) s v = on_index-IsSound now (s.by_mobile m) s v

-- After any sequence of calls every signup is stored under its mobile, and every index entry names
-- a stored signup that has the entry's name, address or mobile.
pub replay-IsSound : (h : List Event) → IsSound (replay h)
unfolding replay
replay-IsSound [] = record {
  keyed = λ m p e. cc;
  usernames = λ u m e. cc;
  emails = λ u m e. cc;
  mobiles = λ u m e. cc;
}
replay-IsSound (e ∷ h) = apply-IsSound e (replay h) (replay-IsSound h)

module _ (t now : Time) (p : PendingSignup) (s : PendingStore) (v : IsSound s)
    (fresh : leb p.expires_at t ≡ false) (alive : now ≤ p.expires_at) where
  get_saved : get_by_mobile now p.mobile (save t p s).1 ≡ (ok p, (save t p s).1)
  unfolding get_by_mobile add_signup
  get_saved = rw (save_ok t p s v, fresh) (ground (arith, eq_refl p.mobile))

  indices_saved :
      ((save t p s).1.by_username p.username ≡ some p.mobile)
      × ((save t p s).1.by_email p.email ≡ some p.mobile)
      × ((save t p s).1.by_mobile p.mobile ≡ some p.mobile)
  unfolding add_signup
  indices_saved =
      rw (save_ok t p s v, fresh)
        (
          ground (arith, eq_refl p.username),
          ground (arith, eq_refl p.email),
          ground (arith, eq_refl p.mobile),
        )

  index_saved :
      (o : Option Text)
      → o ≡ some p.mobile
      → on_index now o (save t p s).1 ≡ (ok p.mobile, (save t p s).1)
  unfolding on_index keep_mobile
  index_saved o e =
      ap (λ (x : Option Text). on_index now x (save t p s).1) e
      ∙ ap (keep_mobile p.mobile) get_saved

-- In a sound store a signup that was saved before its end is found until its end, by its mobile,
-- and its mobile by its name, its address and itself, and the lookups change nothing.
pub lookups-save :
    (t now : Time) (p : PendingSignup) (s : PendingStore)
    → IsSound s
    → leb p.expires_at t ≡ false
    → now ≤ p.expires_at
    → (get_by_mobile now p.mobile (save t p s).1 ≡ (ok p, (save t p s).1))
      × (get_mobile_by_username now p.username (save t p s).1 ≡ (ok p.mobile, (save t p s).1))
      × (get_mobile_by_email now p.email (save t p s).1 ≡ (ok p.mobile, (save t p s).1))
      × (get_mobile_by_mobile now p.mobile (save t p s).1 ≡ (ok p.mobile, (save t p s).1))
unfolding get_mobile_by_username get_mobile_by_email get_mobile_by_mobile
lookups-save t now p s v fresh alive =
    let (u, e, m) = indices_saved t now p s v fresh alive in
    (
      get_saved t now p s v fresh alive,
      index_saved t now p s v fresh alive _ u,
      index_saved t now p s v fresh alive _ e,
      index_saved t now p s v fresh alive _ m,
    )

-- The signup that was saved is under its mobile, and the others stay where they are.
signups_saved :
    (t : Time) (p : PendingSignup) (s : PendingStore)
    → IsSound s
    → leb p.expires_at t ≡ false
    → (m : Text) → (save t p s).1.signups m ≡ (if eq p.mobile m then some p else s.signups m)
unfolding add_signup
signups_saved t p s v fresh m =
    rw (save_ok t p s v, fresh)
      (elim (Bool-cases (eq p.mobile m)) [
        | inl same ↦ rw same refl
        | inr other ↦ rw other (delete_locked-signups p.mobile m s ∙ rw other refl)
      ])

username_deleted :
    (p : PendingSignup) (s : PendingStore)
    → s.signups p.mobile ≡ some p
    → (delete_locked p.mobile s).by_username p.username ≡ none
unfolding delete_locked delete_entry
username_deleted p s found = rw (found, delete_entry) (rw (eq_refl p.username) refl)

-- Two signups with one name under two mobiles are saved in a sound store before their ends and the
-- second is deleted: until the end of the first, its name is not found, though it is still pending
-- under its mobile.
pub index_lost :
    (t now : Time) (a b : PendingSignup) (s : PendingStore)
    → IsSound s
    → leb a.expires_at t ≡ false
    → leb b.expires_at t ≡ false
    → now ≤ a.expires_at
    → a.username ≡ b.username
    → a.mobile ≢ b.mobile
    → ((get_mobile_by_username now a.username
          (replay_from s (deleted b.mobile ∷ saved t b ∷ saved t a ∷ []))).0
        ≡ err cache_miss)
      × ((get_by_mobile now a.mobile
            (replay_from s (deleted b.mobile ∷ saved t b ∷ saved t a ∷ []))).0
          ≡ ok a)
unfolding apply delete_by_mobile get_mobile_by_username get_by_mobile on_index
index_lost t now a b s v fa fb alive same apart =
    let s1 = (save t a s).1 in
    let s2 = (save t b s1).1 in
    let at_a : s1.signups a.mobile ≡ some a =
      signups_saved t a s v fa a.mobile ∙ rw (eq_refl a.mobile) refl in
    let at_b : s2.signups b.mobile ≡ some b =
      signups_saved t b s1 (save-IsSound t a s v) fb b.mobile ∙ rw (eq_refl b.mobile) refl in
    let differ : eq b.mobile a.mobile ≡ false = ground (arith, eq_iff b.mobile a.mobile) in
    let still : s2.signups a.mobile ≡ some a =
      signups_saved t b s1 (save-IsSound t a s v) fb a.mobile ∙ rw differ at_a in
    let left : (delete_locked b.mobile s2).signups a.mobile ≡ some a =
      delete_locked-signups b.mobile a.mobile s2 ∙ rw differ still in
    let lost : (delete_locked b.mobile s2).by_username a.username ≡ none =
      ap (λ u. (delete_locked b.mobile s2).by_username u) same ∙ username_deleted b s2 at_b in
    (ap (λ o. (on_index now o (delete_locked b.mobile s2)).0) lost, ground (arith, left))
