-- ===== src/Redis/OtpState.antt =====
-- cache/redis/otp_state_store.go
use wesko_go_backend.Common.{◌-◌, leb, if◌then◌else◌}
use wesko_go_backend.Common.Text.{Text}
use wesko_go_backend.Common.Exec.{lift, raise, ◌>>=◌}
use wesko_go_backend.Auth.Errors.{token_expired}
use wesko_go_backend.Auth.Models.{OtpRequestState}
use wesko_go_backend.Auth.Ports.{Call, Platform, OtpRequestStateStore, read_clock}
use wesko_go_backend.Redis.Client.{Client, Json, raw, on_missing, rescue}
use wesko_go_backend.Redis.Keys.{otp_state_key}

module _ {S : Type 0} (c : Client S) (p : Platform S) (json : Json OtpRequestState) where
  unfoldable pub save : Text → OtpRequestState → Call S Unit
  save key state = do
    payload ← lift (json.marshal state)
    now ← read_clock p
    if leb state.expires_at now
        then raise token_expired
        else rescue raw (c.set (otp_state_key key) payload (state.expires_at - now))

  unfoldable pub get : Text → Call S OtpRequestState
  get key = do
    payload ← rescue on_missing (c.get (otp_state_key key))
    lift (json.unmarshal payload)

  unfoldable pub remove : Text → Call S Unit
  remove key = rescue raw (c.del (otp_state_key key))

  -- NewOTPStateStore, as an OTPRequestStateStore.
  abbrev pub otp_state_store : OtpRequestStateStore S
  otp_state_store = record { save = save; get = get; delete = remove }
