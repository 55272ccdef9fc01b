-- ===== src/Memory/Refresh/History.antt =====
-- The refresh store refines its history: a lookup shows the last session that was saved for the
-- token, unless the token was deleted since or the session has expired.
use wesko_go_backend.Common.{
  ◌≡◌, ◌≢◌, ◌≤◌, ◌∙◌, refl, inl, inr, false, List, [], ◌∷◌, leb, ltb, All, Bool-cases,
  if◌then◌else◌,
}
use wesko_go_backend.Common.Text.{Text, eq, eq_iff}
use wesko_go_backend.Common.Exec.{Result, ok, err}
use wesko_go_backend.Auth.Errors.{Error, cache_miss}
use wesko_go_backend.Auth.Models.{Time, RefreshSession}
use wesko_go_backend.Memory.Refresh.{RefreshStore, new_refresh_store, save, get, remove}
use wesko_go_backend.Memory.Refresh.Laws.{
  view, view-empty, view-save_self, view-save_ne, view-remove_self, view-remove_ne, view-get,
}

-- A call and the time that it reads.
pub data Event : Type 0 where
  saved : Time → Text → RefreshSession → Event
  looked removed : Time → Text → Event

abbrev pub time_of : Event → Time
time_of (saved t raw session) = t
time_of (looked t raw) = t
time_of (removed t raw) = t

-- The store after a history, its last call first.
pub replay : (Text → Text) → List Event → RefreshStore
replay token_key [] = new_refresh_store
replay token_key (saved t raw session ∷ h) = (save token_key t raw session (replay token_key h)).1
replay token_key (looked t raw ∷ h) = (get token_key t raw (replay token_key h)).1
replay token_key (removed t raw ∷ h) = (remove token_key raw (replay token_key h)).1

-- What a history shows of a token at a time; a session that was dead on arrival was not saved.
pub shown : List Event → Time → Text → Result Error RefreshSession
shown [] now raw = err cache_miss
shown (saved t key session ∷ h) now raw =
    let before = shown h now raw in
    if eq key raw
    then (if leb session.expires_at t
        then before
        else if ltb session.expires_at now
        then err cache_miss
        else ok session)
    else before
shown (looked t key ∷ h) now raw = shown h now raw
shown (removed t key ∷ h) now raw =
    let before = shown h now raw in if eq key raw then err cache_miss else before

module _ (token_key : Text → Text)
    (collision_free : (a b : Text) → token_key a ≡ token_key b → a ≡ b) where
  key_ne : (a b : Text) → eq a b ≡ false → token_key a ≢ token_key b
  key_ne a b h e = cc ((eq_iff a b).1 (collision_free a b e))

  save_case :
      (t : Time) (key : Text) (session : RefreshSession) (h : List Event) (now : Time) (raw : Text)
      → view token_key (replay token_key h) now raw ≡ shown h now raw
      → view token_key (replay token_key (saved t key session ∷ h)) now raw
        ≡ shown (saved t key session ∷ h) now raw
  unfolding replay shown
  save_case t key session h now raw ih = elim (Bool-cases (eq key raw)) [
    | inl same ↦
        let e : key ≡ raw = (eq_iff key raw).0 same in
        rw (same, e) (rw (view-save_self token_key t now raw session (replay token_key h), ih) refl)
    | inr other ↦ rw other (
        view-save_ne token_key t now key raw session (replay token_key h) (key_ne key raw other)
        ∙ ih)
  ]

  remove_case :
      (t : Time) (key : Text) (h : List Event) (now : Time) (raw : Text)
      → view token_key (replay token_key h) now raw ≡ shown h now raw
      → view token_key (replay token_key (removed t key ∷ h)) now raw
        ≡ shown (removed t key ∷ h) now raw
  unfolding replay shown
  remove_case t key h now raw ih = elim (Bool-cases (eq key raw)) [
    | inl same ↦
        let e : key ≡ raw = (eq_iff key raw).0 same in
        rw (same, e) (view-remove_self token_key now raw (replay token_key h))
    | inr other ↦
        rw other
          (view-remove_ne token_key now key raw (replay token_key h) (key_ne key raw other) ∙ ih)
  ]

  -- If no two tokens have the same hash, a lookup in the memory refresh store after any history of
  -- calls, none later than the lookup, answers what the history shows.
  pub view-replay :
      (h : List Event) (now : Time) (raw : Text)
      → All (λ e. time_of e ≤ now) h
      → view token_key (replay token_key h) now raw ≡ shown h now raw
  unfolding replay shown
  view-replay [] now raw past = view-empty token_key now raw
  view-replay (saved t key session ∷ h) now raw (p, past) =
      save_case t key session h now raw (view-replay h now raw past)
  view-replay (looked t key ∷ h) now raw (p, past) =
      view-get token_key t now key raw (replay token_key h) p ∙ view-replay h now raw past
  view-replay (removed t key ∷ h) now raw (p, past) =
      remove_case t key h now raw (view-replay h now raw past)
