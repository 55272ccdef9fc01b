-- ===== src/Memory/PendingSignup/Laws.antt =====
-- The indices of the pending signups agree with the signups.
use wesko_go_backend.Common.{
  ◌≡◌, ◌≢◌, refl, ap, inl, inr, Option, some, none, arith, Option-cases, if◌then◌else◌,
}
use wesko_go_backend.Common.Text.{Text, eq, eq_iff}
use wesko_go_backend.Auth.Models.{PendingSignup}
use wesko_go_backend.Common.Map.{delete}
use wesko_go_backend.Memory.PendingSignup.Index.{Sound, Indexed, Sound-delete, Indexed-delete}
use wesko_go_backend.Memory.PendingSignup.{PendingStore, delete_entry, delete_locked}

-- Every signup is stored under its mobile, and every index entry names a stored signup that has
-- the name, the address or the mobile.
pub record IsSound (s : PendingStore) : Type 0 where
  pub keyed : (m : Text) (p : PendingSignup) → s.signups m ≡ some p → p.mobile ≡ m
  pub usernames : Sound (λ p. p.username) s.signups s.by_username
  pub emails : Sound (λ p. p.email) s.signups s.by_email
  pub mobiles : Sound (λ p. p.mobile) s.signups s.by_mobile

-- Every stored signup is found in the three indices.
pub record IsIndexed (s : PendingStore) : Type 0 where
  pub usernames : Indexed (λ p. p.username) s.signups s.by_username
  pub emails : Indexed (λ p. p.email) s.signups s.by_email
  pub mobiles : Indexed (λ p. p.mobile) s.signups s.by_mobile

-- No signup under another mobile has the name or the address of the new one.
pub record IsFree (new : PendingSignup) (s : PendingStore) : Type 0 where
  pub username :
      (m : Text) (p : PendingSignup)
      → s.signups m ≡ some p
      → m ≢ new.mobile
      → p.username ≢ new.username
  pub email :
      (m : Text) (p : PendingSignup) → s.signups m ≡ some p → m ≢ new.mobile → p.email ≢ new.email

keyed-delete :
    (m : Text) (s : PendingStore)
    → IsSound s
    → (k : Text) (q : PendingSignup) → delete m s.signups k ≡ some q
    → q.mobile ≡ k
keyed-delete m s v k q h = v.keyed k q (ground (arith, eq_iff m k))

delete_entry-IsSound :
    (m : Text) (o : Option PendingSignup) (s : PendingStore)
    → s.signups m ≡ o
    → IsSound s
    → IsSound (delete_entry m o s)
unfolding delete_entry
delete_entry-IsSound m none s e v = v
delete_entry-IsSound m (some p) s e v = record {
  keyed = keyed-delete m s v;
  usernames = Sound-delete (λ p. p.username) s.signups s.by_username m p e v.usernames;
  emails = Sound-delete (λ p. p.email) s.signups s.by_email m p e v.emails;
  mobiles = Sound-delete (λ p. p.mobile) s.signups s.by_mobile m p e v.mobiles;
}

delete_entry-IsIndexed :
    (m : Text) (o : Option PendingSignup) (s : PendingStore)
    → s.signups m ≡ o
    → IsIndexed s
    → IsIndexed (delete_entry m o s)
unfolding delete_entry
delete_entry-IsIndexed m none s e v = v
delete_entry-IsIndexed m (some p) s e v = record {
  usernames = Indexed-delete (λ p. p.username) s.signups s.by_username m p e v.usernames;
  emails = Indexed-delete (λ p. p.email) s.signups s.by_email m p e v.emails;
  mobiles = Indexed-delete (λ p. p.mobile) s.signups s.by_mobile m p e v.mobiles;
}

pub delete_locked-signups :
    (m k : Text) (s : PendingStore)
    → (delete_locked m s).signups k ≡ (if eq m k then none else s.signups k)
unfolding delete_locked
delete_locked-signups m k s = elim (Option-cases (s.signups m)) [
  | inl gone ↦ rw (gone, delete_entry) (ground (arith, eq_iff m k, λ (e : m ≡ k). ap s.signups e))
  | inr (p, found) ↦ rw (found, delete_entry) refl
]

pub delete_locked-IsSound : (m : Text) (s : PendingStore) → IsSound s → IsSound (delete_locked m s)
unfolding delete_locked
delete_locked-IsSound m s v = delete_entry-IsSound m (s.signups m) s refl v

pub delete_locked-IsIndexed :
    (m : Text) (s : PendingStore) → IsIndexed s → IsIndexed (delete_locked m s)
unfolding delete_locked
delete_locked-IsIndexed m s v = delete_entry-IsIndexed m (s.signups m) s refl v
