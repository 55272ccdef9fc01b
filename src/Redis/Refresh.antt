-- ===== src/Redis/Refresh.antt =====
-- cache/redis/refresh_store.go
pub mod Laws
use wesko_go_backend.Common.{◌-◌, leb, if◌then◌else◌}
use wesko_go_backend.Common.Text.{Text}
use wesko_go_backend.Common.Exec.{lift, raise, ◌>>=◌}
use wesko_go_backend.Auth.Errors.{token_expired}
use wesko_go_backend.Auth.Models.{RefreshSession}
use wesko_go_backend.Auth.Ports.{Call, Platform, RefreshTokenStore, read_clock}
use wesko_go_backend.Redis.Client.{Client, Json, raw, on_missing, rescue}
use wesko_go_backend.Redis.Keys.{refresh_key}

module _ {S : Type 0} (c : Client S) (p : Platform S) (json : Json RefreshSession)
    (token_key : Text → Text) where
  unfoldable pub save : Text → RefreshSession → Call S Unit
  save raw_token session = do
    payload ← lift (json.marshal session)
    now ← read_clock p
    if leb session.expires_at now
        then raise token_expired
        else rescue raw (c.set (refresh_key token_key raw_token) payload (session.expires_at - now))

  unfoldable pub get : Text → Call S RefreshSession
  get raw_token = do
    payload ← rescue on_missing (c.get (refresh_key token_key raw_token))
    lift (json.unmarshal payload)

  unfoldable pub remove : Text → Call S Unit
  remove raw_token = rescue raw (c.del (refresh_key token_key raw_token))

  -- NewRefreshStore, as a RefreshTokenStore.
  abbrev pub refresh_store : RefreshTokenStore S
  refresh_store = record { save = save; get = get; delete = remove }
