-- ===== src/Redis/UserCache/Laws.antt =====
-- The Redis cache keeps the contract that the cached repository asks for.
use wesko_go_backend.Common.{◌≡◌, ◌≢◌, inl, inr, false, Option-cases, none, arith}
use wesko_go_backend.Common.Text.{Text, eq, eq_refl}
use wesko_go_backend.Common.Map.{Map}
use wesko_go_backend.Common.Exec.{ok, err, Call-cases, Result-cases}
use wesko_go_backend.Auth.Errors.{cache_miss}
use wesko_go_backend.Auth.Models.{User, Duration}
use wesko_go_backend.Auth.Ports.{UserRepository}
use wesko_go_backend.Auth.Cached.Laws.{Caches}
use wesko_go_backend.Redis.Client.{Client, Json, Serves}
use wesko_go_backend.Redis.Keys.{cache_key}
use wesko_go_backend.Redis.Keys.Laws.{user_of, key_of, key_of-eq_ne}
use wesko_go_backend.Redis.UserCache.{get_user, delete_user, user_cache}

module _ {S : Type 0} (c : Client S) (json : Json User) (ttl : Duration) (stored : S → Map Text)
    (serves : Serves c stored) where
  deletes_user :
      (name : Text) (w t : S)
      → delete_user c json ttl name w ≡ (ok tt, t)
      → c.del (cache_key name) w ≡ (ok tt, t)
  unfolding delete_user
  deletes_user name w t h = elim (Call-cases (c.del (cache_key name) w)) [
    | inr (e, u, q) ↦ absurd (ground arith)
    | inl (_, u, q) ↦ ground arith
  ]

  get_user-none :
      (name : Text) (t : S)
      → stored t (cache_key name) ≡ none
      → get_user c json ttl name t ≡ (err cache_miss, t)
  unfolding get_user
  get_user-none name t h =
      let (e, q, r) = serves.misses (cache_key name) t h in ground (arith, q, r)

  -- A hit shows the payload that the server holds, in any state that holds the same.
  get_user-moved :
      (name : Text) (w t : S) (user : User)
      → stored t (cache_key name) ≡ stored w (cache_key name)
      → get_user c json ttl name w ≡ (ok user, w)
      → get_user c json ttl name t ≡ (ok user, t)
  unfolding get_user
  get_user-moved name w t user same h = elim (Option-cases (stored w (cache_key name))) [
    | inl q ↦ let (e, i, r) = serves.misses (cache_key name) w q in absurd (ground (arith, i, r))
    | inr (payload, q) ↦
        let found = serves.finds (cache_key name) w payload q in
        let moved = serves.finds (cache_key name) t payload (ground (arith, same, q)) in
        elim (Result-cases (json.unmarshal payload)) [
          | inr (e, u) ↦ absurd (ground (arith, found))
          | inl (held, u) ↦ ground (arith, found, moved)
        ]
  ]

  cache_key-eq_ne : (a b : Text) → a ≢ b → eq (cache_key a) (cache_key b) ≡ false
  unfolding key_of
  cache_key-eq_ne a b ne = key_of-eq_ne (user_of a) (user_of b) (λ h. ne cc)

  -- On a server that does what it documents, beside a store whose updates do not write to it, the
  -- Redis cache of accounts keeps the contract `Caches`.
  pub user_cache-Caches :
      (store : UserRepository S)
      → ((new : User) (w : S) → stored (store.update_user new w).1 ≡ stored w)
      → Caches store (user_cache c json ttl)
  user_cache-Caches store alone = record {
    misses = λ name w t h.
        let gone = serves.deletes (cache_key name) w t (deletes_user name w t h) (cache_key name) in
        (cache_miss, get_user-none name t (ground (arith, gone, eq_refl (cache_key name))));
    keeps_others = λ name other w t user ne h held.
        let left =
          serves.deletes (cache_key name) w t (deletes_user name w t h) (cache_key other) in
        get_user-moved other w t user (ground (arith, left, cache_key-eq_ne name other ne)) held;
    apart = λ new name w user held.
        get_user-moved name w (store.update_user new w).1 user (ground (arith, alone new w)) held;
  }
