-- ===== src/Auth/Cached/Laws.antt =====
-- What the cached repository answers after an account has changed.
use wesko_go_backend.Common.{◌≡◌, ◌≢◌, sym, inl, inr, some, arith}
use wesko_go_backend.Common.Text.{Text}
use wesko_go_backend.Common.Exec.{ok, err, Call-cases}
use wesko_go_backend.Auth.Errors.{Error}
use wesko_go_backend.Auth.Models.{User}
use wesko_go_backend.Auth.Ports.{UserRepository, UserCache}
use wesko_go_backend.Auth.Cached.{
  remember, look_through, get_user_details_by_username, update_user, forget,
  new_cached_user_repository,
}

-- A cache that keeps accounts by name, apart from the store: a deletion of a name that succeeds makes
-- the cache miss it and leaves the other names, a miss changes nothing, and the store's update does
-- not reach it.
pub record Caches {S : Type 0} (store : UserRepository S) (cache : UserCache S) : Type 0 where
  pub misses :
      (name : Text) (w t : S)
      → cache.delete_user name w ≡ (ok tt, t)
      → (e : Error) × (cache.get_user name t ≡ (err e, t))
  pub keeps_others :
      (name other : Text) (w t : S) (user : User)
      → name ≢ other
      → cache.delete_user name w ≡ (ok tt, t)
      → cache.get_user other w ≡ (ok user, w)
      → cache.get_user other t ≡ (ok user, t)
  pub apart :
      (new : User) (name : Text) (w : S) (user : User)
      → cache.get_user name w ≡ (ok user, w)
      → cache.get_user name (store.update_user new w).1 ≡ (ok user, (store.update_user new w).1)

module _ {S : Type 0} (store : UserRepository S) (cache : UserCache S)
    (laws : Caches store cache) where
  -- With a cache that keeps accounts by name apart from the store, an update of an account that the
  -- store takes, and after which the cache's deletion of the account's name succeeds, succeeds, and a
  -- lookup of that name in the state that it leaves answers what the store has, success or error.
  pub update_user-fresh :
      (user : User) (w v t : S)
      → store.update_user user w ≡ (ok tt, v)
      → cache.delete_user user.username v ≡ (ok tt, t)
      → ((new_cached_user_repository store (some cache)).update_user user w ≡ (ok tt, t))
        × (((new_cached_user_repository store (some cache)).get_user_details_by_username
              user.username t).0
            ≡ (store.get_user_details_by_username user.username t).0)
  unfolding new_cached_user_repository update_user forget get_user_details_by_username look_through
      remember
  update_user-fresh user w v t stores deletes =
      let (miss, missed) = laws.misses user.username v t deletes in
      (
        ground (arith, stores, deletes),
        elim (Call-cases (store.get_user_details_by_username user.username t)) [
          | inr (e, u, p) ↦ ground (arith, missed)
          | inl (found, u, p) ↦ ground (arith, missed)
        ],
      )

  -- With such a cache, where an update changes the name of an account that the cache holds, a
  -- lookup of the old name is still answered with the old account.
  pub update_user-stale :
      (old new : User) (w v t : S)
      → old.username ≢ new.username
      → cache.get_user old.username w ≡ (ok old, w)
      → store.update_user new w ≡ (ok tt, v)
      → cache.delete_user new.username v ≡ (ok tt, t)
      → (new_cached_user_repository store (some cache)).get_user_details_by_username old.username t
        ≡ (ok old, t)
  unfolding new_cached_user_repository get_user_details_by_username look_through
  update_user-stale old new w v t renamed held stores deletes =
      let kept = laws.apart new old.username w old held in
      let still =
        laws.keeps_others new.username old.username v t old (λ e. renamed (sym e)) deletes
          (ground (arith, stores, kept)) in
      ground (arith, still)
