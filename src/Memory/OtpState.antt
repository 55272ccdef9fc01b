-- ===== src/Memory/OtpState.antt =====
-- OTPStateStore of cache/memory/stores.go.
use wesko_go_backend.Common.{Option, none, some, leb, ltb, if◌then◌else◌}
use wesko_go_backend.Common.Text.{Text}
use wesko_go_backend.Common.Map.{Map, empty, insert, delete}
use wesko_go_backend.Common.Exec.{Result, ok, err}
use wesko_go_backend.Auth.Errors.{Error, token_expired, cache_miss}
use wesko_go_backend.Auth.Models.{Time, OtpRequestState}

pub record OtpStateStore : Type 0 where
  pub states : Map OtpRequestState

abbrev pub new_otp_state_store : OtpStateStore
new_otp_state_store = record { states = empty }

unfoldable pub save :
    Time → Text → OtpRequestState → OtpStateStore → Result Error Unit × OtpStateStore
save now key state s =
    if leb state.expires_at now
    then (err token_expired, s)
    else (ok tt, record { states = insert key state s.states })

on_state :
    Time
    → Text
    → Option OtpRequestState
    → OtpStateStore
    → Result Error OtpRequestState × OtpStateStore
on_state now key none s = (err cache_miss, s)
on_state now key (some state) s =
    if ltb state.expires_at now
    then (err cache_miss, record { states = delete key s.states })
    else (ok state, s)

unfoldable pub get : Time → Text → OtpStateStore → Result Error OtpRequestState × OtpStateStore
unfolding on_state
get now key s = on_state now key (s.states key) s

unfoldable pub remove : Text → OtpStateStore → Result Error Unit × OtpStateStore
remove key s = (ok tt, record { states = delete key s.states })
