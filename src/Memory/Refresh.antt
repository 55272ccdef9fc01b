-- ===== src/Memory/Refresh.antt =====
-- RefreshStore of cache/memory/stores.go. `token_key` is the hexadecimal SHA-256 of a token.
pub mod Laws
pub mod History
use wesko_go_backend.Common.{ℕ, ◌≡◌, Bool, Option, none, some, leb, ltb, if◌then◌else◌}
use wesko_go_backend.Common.Text.{Text, eq}
use wesko_go_backend.Common.Map.{Map, empty, insert, delete}
use wesko_go_backend.Common.Exec.{Result, ok, err}
use wesko_go_backend.Auth.Errors.{Error, token_expired, cache_miss}
use wesko_go_backend.Auth.Models.{Time, RefreshSession}

pub record RefreshStore : Type 0 where
  pub sessions : Map RefreshSession

abbrev pub new_refresh_store : RefreshStore
new_refresh_store = record { sessions = empty }

module _ (token_key : Text → Text) where
  unfoldable pub save :
      Time → Text → RefreshSession → RefreshStore → Result Error Unit × RefreshStore
  save now raw session s =
      if leb session.expires_at now
      then (err token_expired, s)
      else (ok tt, record { sessions = insert (token_key raw) session s.sessions })

  -- What Get does with the entry of its key.
  on_session :
      Time
      → Text
      → Option RefreshSession
      → RefreshStore
      → Result Error RefreshSession × RefreshStore
  on_session now key none s = (err cache_miss, s)
  on_session now key (some session) s =
      if ltb session.expires_at now
      then (err cache_miss, record { sessions = delete key s.sessions })
      else (ok session, s)

  unfoldable pub get : Time → Text → RefreshStore → Result Error RefreshSession × RefreshStore
  unfolding on_session
  get now raw s = on_session now (token_key raw) (s.sessions (token_key raw)) s

  unfoldable pub remove : Text → RefreshStore → Result Error Unit × RefreshStore
  remove raw s = (ok tt, record { sessions = delete (token_key raw) s.sessions })
