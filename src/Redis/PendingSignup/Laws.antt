-- ===== src/Redis/PendingSignup/Laws.antt =====
-- What a lookup of pending signups answers after a signup was saved, and after it was deleted.
use wesko_go_backend.Common.{◌≡◌, inl, inr, Bool-cases, some, none, ◌-◌, leb, arith}
use mathlib.Core.Path.{sym, subst, fun_ext}
use wesko_go_backend.Common.Text.{Text, eq_refl}
use wesko_go_backend.Common.Map.{Map}
use wesko_go_backend.Common.Exec.{ok, err, Result-cases, Call-cases}
use wesko_go_backend.Auth.Errors.{cache_miss}
use wesko_go_backend.Auth.Models.{PendingSignup, Duration}
use wesko_go_backend.Auth.Ports.{Platform}
use wesko_go_backend.Redis.Client.{Client, Json, Serves, apply}
use wesko_go_backend.Redis.Keys.{signup_key, username_key, email_key, mobile_index_key}
use wesko_go_backend.Redis.Keys.Laws.{
  signup_of, username_of, email_of, mobile_index_of, key_of, key_of-eq_ne,
}
use wesko_go_backend.Redis.PendingSignup.{
  save_commands, delete_commands, save, get_by_mobile, delete_by_mobile, get_index,
  get_mobile_by_username, get_mobile_by_email, get_mobile_by_mobile,
}

-- What is marshalled is unmarshalled.
abbrev pub Decodes : {A : Type 0} → Json A → Type 0
Decodes {A} json =
    (a : A) (payload : Text) → json.marshal a ≡ ok payload → json.unmarshal payload ≡ ok a

-- The entries of a server hold a signup, with its payload, and its three indices.
record Holds (signup : PendingSignup) (payload : Text) (m : Map Text) : Type 0 where
  signups : m (signup_key signup.mobile) ≡ some payload
  usernames : m (username_key signup.username) ≡ some signup.mobile
  emails : m (email_key signup.email) ≡ some signup.mobile
  mobiles : m (mobile_index_key signup.mobile) ≡ some signup.mobile

save_commands-Holds :
    (signup : PendingSignup) (payload : Text) (ttl : Duration) (m : Map Text)
    → Holds signup payload (apply (save_commands signup payload ttl) m)
unfolding apply save_commands key_of
save_commands-Holds signup payload ttl m =
    let s = signup_of signup.mobile in
    let u = username_of signup.username in
    let e = email_of signup.email in
    let i = mobile_index_of signup.mobile in
    let us = key_of-eq_ne u s (λ h. cc) in
    let es = key_of-eq_ne e s (λ h. cc) in
    let is = key_of-eq_ne i s (λ h. cc) in
    let eu = key_of-eq_ne e u (λ h. cc) in
    let iu = key_of-eq_ne i u (λ h. cc) in
    let ie = key_of-eq_ne i e (λ h. cc) in
    record {
      signups = ground (arith, eq_refl (signup_key signup.mobile), us, es, is);
      usernames = ground (arith, eq_refl (username_key signup.username), eu, iu);
      emails = ground (arith, eq_refl (email_key signup.email), ie);
      mobiles = ground (arith, eq_refl (mobile_index_key signup.mobile));
    }

-- The entries of a server hold neither the signup nor its indices.
record Lacks (signup : PendingSignup) (m : Map Text) : Type 0 where
  signups : m (signup_key signup.mobile) ≡ none
  usernames : m (username_key signup.username) ≡ none
  emails : m (email_key signup.email) ≡ none
  mobiles : m (mobile_index_key signup.mobile) ≡ none

delete_commands-Lacks :
    (signup : PendingSignup) (m : Map Text)
    → Lacks signup (apply (delete_commands signup.mobile signup) m)
unfolding apply delete_commands
delete_commands-Lacks signup m = record {
  signups = ground (arith, eq_refl (signup_key signup.mobile));
  usernames = ground (arith, eq_refl (username_key signup.username));
  emails = ground (arith, eq_refl (email_key signup.email));
  mobiles = ground (arith, eq_refl (mobile_index_key signup.mobile));
}

module _ {S : Type 0} (c : Client S) (p : Platform S) (json : Json PendingSignup)
    (stored : S → Map Text) (serves : Serves c stored) (decodes : Decodes json) where
  -- The four lookups find the signup.
  pub record IsFound (signup : PendingSignup) (t : S) : Type 0 where
    pub signups : get_by_mobile c p json signup.mobile t ≡ (ok signup, t)
    pub usernames : get_mobile_by_username c p json signup.username t ≡ (ok signup.mobile, t)
    pub emails : get_mobile_by_email c p json signup.email t ≡ (ok signup.mobile, t)
    pub mobiles : get_mobile_by_mobile c p json signup.mobile t ≡ (ok signup.mobile, t)

  -- The four lookups find nothing.
  pub record IsGone (signup : PendingSignup) (t : S) : Type 0 where
    pub signups : get_by_mobile c p json signup.mobile t ≡ (err cache_miss, t)
    pub usernames : get_mobile_by_username c p json signup.username t ≡ (err cache_miss, t)
    pub emails : get_mobile_by_email c p json signup.email t ≡ (err cache_miss, t)
    pub mobiles : get_mobile_by_mobile c p json signup.mobile t ≡ (err cache_miss, t)

  -- A save that succeeds ran its pipeline.
  save_sound :
      (signup : PendingSignup) (w t : S)
      → save c p json signup w ≡ (ok tt, t)
      → (payload : Text) × (ttl : Duration) × (v : S) × (json.marshal signup ≡ ok payload)
        × (c.run (save_commands signup payload ttl) v ≡ (ok tt, t))
  unfolding save
  save_sound signup w t h = elim (Result-cases (json.marshal signup)) [
    | inr (e, q) ↦ absurd (ground arith)
    | inl (payload, q) ↦
        let (now, v) = p.now w in
        elim (Bool-cases (leb signup.expires_at now)) [
          | inl b ↦ absurd (ground arith)
          | inr b ↦
              let commands = save_commands signup payload (signup.expires_at - now) in
              elim (Call-cases (c.run commands v)) [
                | inr (e, u, r) ↦ absurd (ground arith)
                | inl (_, u, r) ↦ (payload, signup.expires_at - now, v, q, ground arith)
              ]
        ]
  ]

  get_index-some : (k v : Text) (t : S) → stored t k ≡ some v → get_index c p json k t ≡ (ok v, t)
  unfolding get_index
  get_index-some k v t h = ground (arith, serves.finds k t v h)

  get_index-none :
      (k : Text) (t : S) → stored t k ≡ none → get_index c p json k t ≡ (err cache_miss, t)
  unfolding get_index
  get_index-none k t h = let (e, q, r) = serves.misses k t h in ground (arith, q, r)

  Holds-IsFound :
      (signup : PendingSignup) (payload : Text) (t : S)
      → json.marshal signup ≡ ok payload
      → Holds signup payload (stored t)
      → IsFound signup t
  unfolding get_by_mobile get_mobile_by_username get_mobile_by_email get_mobile_by_mobile
  Holds-IsFound signup payload t q h = record {
    signups = ground (
      arith,
      serves.finds (signup_key signup.mobile) t payload h.signups,
      decodes signup payload q,
    );
    usernames = get_index-some (username_key signup.username) signup.mobile t h.usernames;
    emails = get_index-some (email_key signup.email) signup.mobile t h.emails;
    mobiles = get_index-some (mobile_index_key signup.mobile) signup.mobile t h.mobiles;
  }

  Lacks-IsGone : (signup : PendingSignup) (t : S) → Lacks signup (stored t) → IsGone signup t
  unfolding get_by_mobile get_mobile_by_username get_mobile_by_email get_mobile_by_mobile
  Lacks-IsGone signup t h = record {
    signups =
        let (e, q, r) = serves.misses (signup_key signup.mobile) t h.signups in
        ground (arith, q, r);
    usernames = get_index-none (username_key signup.username) t h.usernames;
    emails = get_index-none (email_key signup.email) t h.emails;
    mobiles = get_index-none (mobile_index_key signup.mobile) t h.mobiles;
  }

  save-IsFound :
      (signup : PendingSignup) (w t : S) → save c p json signup w ≡ (ok tt, t) → IsFound signup t
  save-IsFound signup w t h =
      let (payload, ttl, v, q, r) = save_sound signup w t h in
      let same = fun_ext (serves.runs (save_commands signup payload ttl) v t r) in
      Holds-IsFound signup payload t q (
        subst (Holds signup payload) (sym same) (save_commands-Holds signup payload ttl (stored v)))

  delete_by_mobile-IsGone :
      (signup : PendingSignup) (t u : S)
      → IsFound signup t
      → delete_by_mobile c p json signup.mobile t ≡ (ok tt, u)
      → IsGone signup u
  unfolding delete_by_mobile
  delete_by_mobile-IsGone signup t u h d =
      let commands = delete_commands signup.mobile signup in
      let found = h.signups in
      elim (Call-cases (c.run commands t)) [
        | inr (e, v, r) ↦ absurd (ground arith)
        | inl (_, v, r) ↦
            let same = fun_ext (serves.runs commands t u (ground arith)) in
            Lacks-IsGone signup u
              (subst (Lacks signup) (sym same) (delete_commands-Lacks signup (stored t)))
      ]

  -- With a Redis server that does what it documents, and a JSON that can be read back, a pending
  -- signup is found after it was saved, by its mobile, and its mobile by its name, its address and
  -- itself, and none of these finds anything after its mobile was then deleted.
  pub lookups-save-delete :
      (signup : PendingSignup) (w t u : S)
      → save c p json signup w ≡ (ok tt, t)
      → delete_by_mobile c p json signup.mobile t ≡ (ok tt, u)
      → IsFound signup t × IsGone signup u
  lookups-save-delete signup w t u h d =
      let found = save-IsFound signup w t h in (found, delete_by_mobile-IsGone signup t u found d)
