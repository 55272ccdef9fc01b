-- ===== src/Redis/UserCache.antt =====
-- cache/redis/user_cache.go
pub mod Laws
use wesko_go_backend.Common.Text.{Text}
use wesko_go_backend.Common.Exec.{lift, ◌>>=◌}
use wesko_go_backend.Auth.Models.{User, Duration}
use wesko_go_backend.Auth.Ports
use wesko_go_backend.Auth.Ports.{Call}
use wesko_go_backend.Redis.Client.{Client, Json, raw, on_missing, rescue}
use wesko_go_backend.Redis.Keys.{cache_key}

module _ {S : Type 0} (c : Client S) (json : Json User) (ttl : Duration) where
  unfoldable pub get_user : Text → Call S User
  get_user username = do
    payload ← rescue on_missing (c.get (cache_key username))
    lift (json.unmarshal payload)

  unfoldable pub set_user : User → Call S Unit
  set_user user = do
    payload ← lift (json.marshal user)
    rescue raw (c.set (cache_key user.username) payload ttl)

  unfoldable pub delete_user : Text → Call S Unit
  delete_user username = rescue raw (c.del (cache_key username))

  -- NewUserCache, as a UserCache.
  abbrev pub user_cache : Ports.UserCache S
  user_cache = record { get_user = get_user; set_user = set_user; delete_user = delete_user }
