-- ===== src/Memory/PendingSignup/Save.antt =====
-- What saving and looking up pending signups keeps and shows.
use wesko_go_backend.Common.{
  ◌≡◌, ◌≢◌, refl, sym, ap, inl, inr, some, none, arith, leb, ◌∙◌, Bool-cases, Option-cases,
  if◌then◌else◌,
}
use wesko_go_backend.Common.Text.{Text, eq, eq_refl, eq_iff}
use wesko_go_backend.Auth.Models.{Time, PendingSignup}
use wesko_go_backend.Memory.PendingSignup.Index.{Sound-insert, Indexed-insert}
use wesko_go_backend.Memory.PendingSignup.Laws.{
  IsSound, IsIndexed, IsFree, delete_locked-signups, delete_locked-IsSound, delete_locked-IsIndexed,
}
use wesko_go_backend.Memory.PendingSignup.{
  PendingStore, delete_entry, delete_locked, drop_existing, add_signup, save,
}

delete_locked_of_none : (m : Text) (s : PendingStore) → s.signups m ≡ none → delete_locked m s ≡ s
unfolding delete_locked delete_entry
delete_locked_of_none m s gone = ap (λ o. delete_entry m o s) gone

-- In a sound store the entry that Save drops is the one of the mobile.
drop_existing_lem :
    (m : Text) (s : PendingStore) → IsSound s → drop_existing (s.signups m) s ≡ delete_locked m s
unfolding drop_existing
drop_existing_lem m s v = elim (Option-cases (s.signups m)) [
  | inl gone ↦ ap (λ o. drop_existing o s) gone ∙ sym (delete_locked_of_none m s gone)
  | inr (p, found) ↦
      ap (λ o. drop_existing o s) found ∙ ap (λ k. delete_locked k s) (v.keyed m p found)
]

add_signup-IsSound :
    (p : PendingSignup) (s : PendingStore)
    → s.signups p.mobile ≡ none
    → IsSound s
    → IsSound (add_signup p s)
unfolding add_signup
add_signup-IsSound p s free v = record {
  keyed = λ k q h. ground (arith, eq_iff p.mobile k, v.keyed k q);
  usernames = Sound-insert (λ q. q.username) s.signups s.by_username p.mobile p free v.usernames;
  emails = Sound-insert (λ q. q.email) s.signups s.by_email p.mobile p free v.emails;
  mobiles = Sound-insert (λ q. q.mobile) s.signups s.by_mobile p.mobile p free v.mobiles;
}

pub save_ok :
    (now : Time) (p : PendingSignup) (s : PendingStore)
    → IsSound s
    → (save now p s).1
      ≡ (if leb p.expires_at now then s else add_signup p (delete_locked p.mobile s))
unfolding save
save_ok now p s v = elim (Bool-cases (leb p.expires_at now)) [
  | inl dead ↦ rw dead refl
  | inr alive ↦ rw alive (ap (add_signup p) (drop_existing_lem p.mobile s v))
]

gone_after_delete : (m : Text) (s : PendingStore) → (delete_locked m s).signups m ≡ none
gone_after_delete m s = delete_locked-signups m m s ∙ rw (eq_refl m) refl

pub save-IsSound :
    (now : Time) (p : PendingSignup) (s : PendingStore) → IsSound s → IsSound (save now p s).1
save-IsSound now p s v = elim (Bool-cases (leb p.expires_at now)) [
  | inl dead ↦ rw (save_ok now p s v, dead) v
  | inr alive ↦
      rw (save_ok now p s v, alive)
        (add_signup-IsSound p (delete_locked p.mobile s) (gone_after_delete p.mobile s)
          (delete_locked-IsSound p.mobile s v))
]

-- No other signup in the store that is left has the name or the address.
free_after_delete :
    (p : PendingSignup) (s : PendingStore) (k : Text) (q : PendingSignup)
    → IsFree p s
    → (delete_locked p.mobile s).signups k ≡ some q
    → (q.username ≢ p.username) × (q.email ≢ p.email)
free_after_delete p s k q free h = elim (Bool-cases (eq p.mobile k)) [
  | inl same ↦ cc (rw (delete_locked-signups p.mobile k s, same) at h)
  | inr other ↦
      let at_k : s.signups k ≡ some q = rw (delete_locked-signups p.mobile k s, other) at h in
      let ne : k ≢ p.mobile = ground (arith, eq_iff p.mobile k) in
      (free.username k q at_k ne, free.email k q at_k ne)
]

add_signup-IsIndexed :
    (p : PendingSignup) (s : PendingStore)
    → IsSound s
    → IsIndexed s
    → IsFree p s
    → IsIndexed (add_signup p (delete_locked p.mobile s))
unfolding add_signup
add_signup-IsIndexed p s v i free =
    let left = delete_locked p.mobile s in
    let j = delete_locked-IsIndexed p.mobile s i in
    let w = delete_locked-IsSound p.mobile s v in
    let gone = gone_after_delete p.mobile s in
    record {
      usernames =
          Indexed-insert (λ q. q.username) left.signups left.by_username p.mobile p
            (λ k q h. (free_after_delete p s k q free h).0) j.usernames;
      emails =
          Indexed-insert (λ q. q.email) left.signups left.by_email p.mobile p
            (λ k q h. (free_after_delete p s k q free h).1) j.emails;
      mobiles =
          Indexed-insert (λ q. q.mobile) left.signups left.by_mobile p.mobile p
            (λ k q h e. other_mobile left p w gone k q h e) j.mobiles;
    }
  where
    other_mobile :
        (l : PendingStore) (p : PendingSignup)
        → IsSound l
        → l.signups p.mobile ≡ none
        → (k : Text) (q : PendingSignup) → l.signups k ≡ some q
        → q.mobile ≡ p.mobile
        → ⊥
    other_mobile l p w gone k q h e = cc (ap l.signups (sym (w.keyed k q h) ∙ e))

-- In a sound store whose three indices have every signup, and where no signup under another mobile
-- has the name or the address of the new one, saving the new one leaves every signup in the three
-- indices.
pub save-IsIndexed :
    (now : Time) (p : PendingSignup) (s : PendingStore)
    → IsSound s
    → IsIndexed s
    → IsFree p s
    → IsIndexed (save now p s).1
save-IsIndexed now p s v i free = elim (Bool-cases (leb p.expires_at now)) [
  | inl dead ↦ rw (save_ok now p s v, dead) i
  | inr alive ↦ rw (save_ok now p s v, alive) (add_signup-IsIndexed p s v i free)
]
