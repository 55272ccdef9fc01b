-- ===== src/Memory/PendingSignup.antt =====
-- PendingSignupStore of cache/memory/stores.go.
pub mod Index
pub mod Laws
pub mod Save
pub mod History
use wesko_go_backend.Common.{ℕ, ◌≡◌, Bool, Option, none, some, leb, ltb, if◌then◌else◌}
use wesko_go_backend.Common.Text.{Text, eq}
use wesko_go_backend.Common.Map.{Map, empty, insert, delete}
use wesko_go_backend.Common.Exec.{Result, ok, err}
use wesko_go_backend.Auth.Errors.{Error, pending_signup_expired, cache_miss}
use wesko_go_backend.Auth.Models.{Time, PendingSignup}

pub record PendingStore : Type 0 where
  pub signups : Map PendingSignup
  pub by_username : Map Text
  pub by_email : Map Text
  pub by_mobile : Map Text

abbrev pub new_pending_signup_store : PendingStore
new_pending_signup_store = record {
  signups = empty;
  by_username = empty;
  by_email = empty;
  by_mobile = empty;
}

-- deleteLocked, by the entry of the mobile
delete_entry : Text → Option PendingSignup → PendingStore → PendingStore
delete_entry mobile none s = s
delete_entry mobile (some signup) s = record {
  signups = delete mobile s.signups;
  by_username = delete signup.username s.by_username;
  by_email = delete signup.email s.by_email;
  by_mobile = delete signup.mobile s.by_mobile;
}

unfoldable pub delete_locked : Text → PendingStore → PendingStore
unfolding delete_entry
delete_locked mobile s = delete_entry mobile (s.signups mobile) s

-- An entry that is there is deleted by its own mobile.
drop_existing : Option PendingSignup → PendingStore → PendingStore
drop_existing none s = s
drop_existing (some existing) s = delete_locked existing.mobile s

-- The four assignments at the end of Save.
unfoldable pub add_signup : PendingSignup → PendingStore → PendingStore
add_signup signup s = record {
  signups = insert signup.mobile signup s.signups;
  by_username = insert signup.username signup.mobile s.by_username;
  by_email = insert signup.email signup.mobile s.by_email;
  by_mobile = insert signup.mobile signup.mobile s.by_mobile;
}

unfoldable pub save : Time → PendingSignup → PendingStore → Result Error Unit × PendingStore
unfolding drop_existing
save now signup s =
    if leb signup.expires_at now
    then (err pending_signup_expired, s)
    else (ok tt, add_signup signup (drop_existing (s.signups signup.mobile) s))

on_signup :
    Time → Text → Option PendingSignup → PendingStore → Result Error PendingSignup × PendingStore
on_signup now mobile none s = (err cache_miss, s)
on_signup now mobile (some signup) s =
    if ltb signup.expires_at now then (err cache_miss, delete_locked mobile s) else (ok signup, s)

-- GetByMobile and getByMobileLocked
unfoldable pub get_by_mobile :
    Time → Text → PendingStore → Result Error PendingSignup × PendingStore
unfolding on_signup
get_by_mobile now mobile s = on_signup now mobile (s.signups mobile) s

unfoldable pub delete_by_mobile : Text → PendingStore → Result Error Unit × PendingStore
delete_by_mobile mobile s = (ok tt, delete_locked mobile s)

-- The end of getIndexLocked: the mobile, if its signup is alive.
keep_mobile : Text → Result Error PendingSignup × PendingStore → Result Error Text × PendingStore
keep_mobile mobile (ok signup, s) = (ok mobile, s)
keep_mobile mobile (err e, s) = (err e, s)

on_index : Time → Option Text → PendingStore → Result Error Text × PendingStore
on_index now none s = (err cache_miss, s)
on_index now (some mobile) s = keep_mobile mobile (get_by_mobile now mobile s)

unfoldable pub get_mobile_by_username :
    Time → Text → PendingStore → Result Error Text × PendingStore
unfolding on_index keep_mobile
get_mobile_by_username now username s = on_index now (s.by_username username) s

unfoldable pub get_mobile_by_email : Time → Text → PendingStore → Result Error Text × PendingStore
unfolding on_index keep_mobile
get_mobile_by_email now email s = on_index now (s.by_email email) s

unfoldable pub get_mobile_by_mobile : Time → Text → PendingStore → Result Error Text × PendingStore
unfolding on_index keep_mobile
get_mobile_by_mobile now mobile s = on_index now (s.by_mobile mobile) s
