-- ===== src/Redis/PendingSignup.antt =====
-- cache/redis/pending_signup_store.go
pub mod Laws
use wesko_go_backend.Common.{List, [], ◌∷◌, ◌-◌, leb, if◌then◌else◌}
use wesko_go_backend.Common.Text.{Text}
use wesko_go_backend.Common.Exec.{ok, err, pure, lift, raise, attempt, ◌>>=◌}
use wesko_go_backend.Auth.Errors.{pending_signup_expired, is_cache_miss}
use wesko_go_backend.Auth.Models.{PendingSignup, Duration}
use wesko_go_backend.Auth.Ports.{Call, Platform, PendingSignupStore, read_clock}
use wesko_go_backend.Redis.Client.{Client, Json, Command, put, drop, raw, on_missing, rescue}
use wesko_go_backend.Redis.Keys.{signup_key, username_key, email_key, mobile_index_key}

-- The pipeline of Save.
unfoldable pub save_commands : PendingSignup → Text → Duration → List Command
save_commands signup payload ttl =
    put (signup_key signup.mobile) payload ttl
    ∷ put (username_key signup.username) signup.mobile ttl
    ∷ put (email_key signup.email) signup.mobile ttl
    ∷ put (mobile_index_key signup.mobile) signup.mobile ttl
    ∷ []

-- The pipeline of DeleteByMobile.
unfoldable pub delete_commands : Text → PendingSignup → List Command
delete_commands mobile signup =
    drop (signup_key mobile)
    ∷ drop (username_key signup.username)
    ∷ drop (email_key signup.email)
    ∷ drop (mobile_index_key signup.mobile)
    ∷ []

module _ {S : Type 0} (c : Client S) (p : Platform S) (json : Json PendingSignup) where
  unfoldable pub save : PendingSignup → Call S Unit
  unfolding save_commands
  save signup = do
    payload ← lift (json.marshal signup)
    now ← read_clock p
    if leb signup.expires_at now
        then raise pending_signup_expired
        else rescue raw (c.run (save_commands signup payload (signup.expires_at - now)))

  unfoldable pub get_by_mobile : Text → Call S PendingSignup
  get_by_mobile mobile = do
    payload ← rescue on_missing (c.get (signup_key mobile))
    lift (json.unmarshal payload)

  unfoldable pub delete_by_mobile : Text → Call S Unit
  unfolding get_by_mobile delete_commands
  delete_by_mobile mobile = do
    found ← attempt (get_by_mobile mobile)
    elim found [
      | err e ↦ if is_cache_miss e then pure tt else raise e
      | ok signup ↦ rescue raw (c.run (delete_commands mobile signup))
    ]

  -- getIndex
  unfoldable pub get_index : Text → Call S Text
  get_index key = rescue on_missing (c.get key)

  unfoldable pub get_mobile_by_username : Text → Call S Text
  unfolding get_index
  get_mobile_by_username username = get_index (username_key username)

  unfoldable pub get_mobile_by_email : Text → Call S Text
  unfolding get_index
  get_mobile_by_email email = get_index (email_key email)

  unfoldable pub get_mobile_by_mobile : Text → Call S Text
  unfolding get_index
  get_mobile_by_mobile mobile = get_index (mobile_index_key mobile)

  -- NewPendingSignupStore, as a PendingSignupStore.
  abbrev pub pending_signup_store : PendingSignupStore S
  pending_signup_store = record {
    save = save;
    get_by_mobile = get_by_mobile;
    delete_by_mobile = delete_by_mobile;
    get_mobile_by_username = get_mobile_by_username;
    get_mobile_by_email = get_mobile_by_email;
    get_mobile_by_mobile = get_mobile_by_mobile;
  }
