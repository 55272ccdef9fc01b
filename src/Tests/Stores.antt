-- ===== src/Tests/Stores.antt =====
-- The memory stores at concrete calls.
use Prim.Native.Nat.{min}
use wesko_go_backend.Common.{ℕ, ◌≡◌, refl, List, [], ◌∷◌, arith, length, false}
use wesko_go_backend.Common.Text.{Text, codes, eq}
use wesko_go_backend.Common.Exec.{ok}
use wesko_go_backend.Auth.Models.{PendingSignup, RefreshSession, RateLimitRule}
use wesko_go_backend.Memory.Refresh.Laws.{view}
use wesko_go_backend.Memory.Refresh.History.{view-replay}
use wesko_go_backend.Memory.PendingSignup.{
  new_pending_signup_store, save, get_by_mobile, get_mobile_by_username, get_mobile_by_email,
  get_mobile_by_mobile,
}
use wesko_go_backend.Memory.PendingSignup.Laws.{IsSound, IsIndexed, IsFree}
use wesko_go_backend.Memory.PendingSignup.History.{
  Event, saved, looked_up, replay, replay-IsSound, lookups-save,
}
use wesko_go_backend.Memory.RateLimit.{new_rate_limiter}
use wesko_go_backend.Memory.RateLimit.Laws.{admitted_calls, admitted_calls-eq-min}
use wesko_go_backend.Memory.Refresh.History as Sessions

abbrev session : RefreshSession
session = record { token_id = codes "t"; user_id = 1; username = codes "ann"; expires_at = 50 }

abbrev calls : List Sessions.Event
calls =
    Sessions.looked 30 (codes "tok")
    ∷ Sessions.removed 20 (codes "other")
    ∷ Sessions.saved 10 (codes "tok") session
    ∷ []

view-replay_example :
    view (λ t. t) (Sessions.replay (λ t. t) calls) 40 (codes "tok")
    ≡ Sessions.shown calls 40 (codes "tok")
view-replay_example =
    view-replay (λ t. t) (λ a b e. e) calls 40 (codes "tok")
      (omega arith, (omega arith, (omega arith, tt)))

abbrev ann : PendingSignup
ann = record {
  username = codes "ann";
  password_hash = codes "hash";
  email = codes "ann@example.com";
  mobile = codes "+919876543210";
  resend_count = 0;
  last_sent_at = 10;
  expires_at = 60;
}

-- The same name under another mobile.
abbrev other_ann : PendingSignup
other_ann = record ann { email = codes "ann@example.org"; mobile = codes "+919876543211" }

abbrev history : List Event
history = looked_up 70 ann.mobile ∷ saved 12 other_ann ∷ saved 10 ann ∷ []

replay-IsSound_example : IsSound (replay history)
replay-IsSound_example = replay-IsSound history

empty-IsSound : IsSound new_pending_signup_store
empty-IsSound = record {
  keyed = λ m p e. cc;
  usernames = λ u m e. cc;
  emails = λ u m e. cc;
  mobiles = λ u m e. cc;
}

empty-IsIndexed : IsIndexed new_pending_signup_store
empty-IsIndexed = record { usernames = λ m p e. cc; emails = λ m p e. cc; mobiles = λ m p e. cc }

ann-IsFree : IsFree ann new_pending_signup_store
ann-IsFree = record { username = λ m p e ne. cc; email = λ m p e ne. cc }

lookups-save_example :
    (get_by_mobile 20 ann.mobile (save 10 ann new_pending_signup_store).1
      ≡ (ok ann, (save 10 ann new_pending_signup_store).1))
    × (get_mobile_by_username 20 ann.username (save 10 ann new_pending_signup_store).1
        ≡ (ok ann.mobile, (save 10 ann new_pending_signup_store).1))
    × (get_mobile_by_email 20 ann.email (save 10 ann new_pending_signup_store).1
        ≡ (ok ann.mobile, (save 10 ann new_pending_signup_store).1))
    × (get_mobile_by_mobile 20 ann.mobile (save 10 ann new_pending_signup_store).1
        ≡ (ok ann.mobile, (save 10 ann new_pending_signup_store).1))
lookups-save_example =
    lookups-save 10 20 ann new_pending_signup_store empty-IsSound refl (omega arith)

mobiles_differ : eq ann.mobile other_ann.mobile ≡ false
unfolding eq
mobiles_differ = refl

abbrev rule : RateLimitRule
rule = record { limit = 2; window = 100 }

abbrev key : Text
key = codes "ip:10.0.0.1"

abbrev times : List ℕ
times = 5 ∷ 6 ∷ 105 ∷ 100 ∷ []

admitted_calls-eq-min_example :
    admitted_calls key rule times new_rate_limiter ≡ min rule.limit (length times)
admitted_calls-eq-min_example =
    admitted_calls-eq-min key rule 5 (6 ∷ 105 ∷ 100 ∷ []) new_rate_limiter
      (omega arith, omega arith) refl (omega arith, (omega arith, (omega arith, tt)))

keys_differ : eq key (codes "ip:10.0.0.2") ≡ false
unfolding eq
keys_differ = refl
