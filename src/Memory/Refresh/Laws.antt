-- ===== src/Memory/Refresh/Laws.antt =====
-- What the refresh store answers after each of its operations.
use wesko_go_backend.Common.{◌≡◌, ◌≢◌, ◌≤◌, refl, arith, leb, ltb, if◌then◌else◌}
use wesko_go_backend.Common.Text.{Text, eq_refl, eq_iff}
use wesko_go_backend.Common.Exec.{Result, ok, err}
use wesko_go_backend.Auth.Errors.{Error, cache_miss}
use wesko_go_backend.Auth.Models.{Time, RefreshSession}
use wesko_go_backend.Memory.Refresh.{RefreshStore, new_refresh_store, save, get, remove}

module _ (token_key : Text → Text) where
  -- The store as the lookups show it.
  abbrev pub view : RefreshStore → Time → Text → Result Error RefreshSession
  view s now raw = (get token_key now raw s).0

  pub view-empty : (now : Time) (raw : Text) → view new_refresh_store now raw ≡ err cache_miss
  unfolding get
  view-empty now raw = refl

  -- A saved session is found under its token until it expires, and a session that has expired is not saved.
  pub view-save_self :
      (saved now : Time) (raw : Text) (session : RefreshSession) (s : RefreshStore)
      → view (save token_key saved raw session s).1 now raw ≡ (
          if leb session.expires_at saved
          then view s now raw
          else if ltb session.expires_at now
          then err cache_miss
          else ok session)
  unfolding save get
  view-save_self saved now raw session s = ground (arith, eq_refl (token_key raw))

  pub view-save_ne :
      (saved now : Time) (raw other : Text) (session : RefreshSession) (s : RefreshStore)
      → token_key raw ≢ token_key other
      → view (save token_key saved raw session s).1 now other ≡ view s now other
  unfolding save get
  view-save_ne saved now raw other session s ne =
      ground (arith, eq_iff (token_key raw) (token_key other))

  pub view-remove_self :
      (now : Time) (raw : Text) (s : RefreshStore)
      → view (remove token_key raw s).1 now raw ≡ err cache_miss
  unfolding remove get
  view-remove_self now raw s = ground (arith, eq_refl (token_key raw))

  pub view-remove_ne :
      (now : Time) (raw other : Text) (s : RefreshStore)
      → token_key raw ≢ token_key other
      → view (remove token_key raw s).1 now other ≡ view s now other
  unfolding remove get
  view-remove_ne now raw other s ne = ground (arith, eq_iff (token_key raw) (token_key other))

  -- Looking up drops an expired session, which no later lookup would show.
  pub view-get :
      (first now : Time) (raw other : Text) (s : RefreshStore)
      → first ≤ now
      → view (get token_key first raw s).1 now other ≡ view s now other
  unfolding get
  view-get first now raw other s later = ground (arith, eq_iff (token_key raw) (token_key other))
