-- ===== src/Tests/Sessions.antt =====
-- Logins, tokens and refresh tokens in the small world.
use wesko_go_backend.Common.{ℕ, ◌≡◌, ◌≢◌, ◌↔◌, ◌<◌, refl, false, none, arith, ◌+◌, ◌⊎◌, ◌≤◌, []}
use wesko_go_backend.Common.Text.{Text, codes, trim_space, eq, eq_refl, eq_iff, apart_of_eq}
use wesko_go_backend.Common.Exec.{Result, ok, err}
use wesko_go_backend.Common.Map.{empty, insert}
use wesko_go_backend.Auth.Errors.{
  Error, invalid_refresh_token, otp_resend_limit_reached, otp_resend_too_soon,
}
use wesko_go_backend.Auth.Models.{User, TokenPair, RefreshSession}
use wesko_go_backend.Auth.Token.{generate_token_pair, parse_access_token}
use wesko_go_backend.Auth.Token.Laws.{claims_at, parse-generate}
use wesko_go_backend.Auth.Service.Base.{validate_resend_window, issue_token_pair}
use wesko_go_backend.Auth.Service.Base.Laws.{validate_resend_window_iff}
use wesko_go_backend.Auth.Service.Login.{validate_login}
use wesko_go_backend.Auth.Service.Login.Laws.{IsAuthenticated, validate_login_iff}
use wesko_go_backend.Auth.Service.Session.{refresh, logout}
use wesko_go_backend.Auth.Service.Session.Laws.{IsRefreshed, refresh_iff}
use wesko_go_backend.Auth.Service.Session.Rotation.{Revokes, refresh_once, refresh_after_logout}
use wesko_go_backend.Tests.Seal.{decode-encode}
use wesko_go_backend.Tests.World.{
  no_pair, World, world, service, manager, ann, answer, world_platform, world_refresh_store,
}
use wesko_go_backend.Memory.Refresh

validate_login_iff_example :
    (validate_login service (codes " ann ") (codes "secret") world ≡ (ok ann, world))
    ↔ IsAuthenticated service (codes " ann ") (codes "secret") world ann world
validate_login_iff_example =
    validate_login_iff service (codes " ann ") (codes "secret") world ann world

login_run : validate_login service (codes " ann ") (codes "secret") world ≡ (ok ann, world)
unfolding validate_login trim_space eq
login_run = refl

abbrev sent : ℕ
sent = 998

validate_resend_window_iff_example :
    (((validate_resend_window service sent 1 world).0 ≡ err otp_resend_limit_reached)
      ↔ ((0 < service.otp_config.max_resends) × (service.otp_config.max_resends ≤ 1)))
    × (((validate_resend_window service sent 1 world).0 ≡ err otp_resend_too_soon) ↔ (
        ((service.otp_config.max_resends ≡ 0) ⊎ (1 < service.otp_config.max_resends))
        × (sent ≢ 0)
        × (1000 < sent + service.otp_config.resend_cooldown)
        × (0 < service.otp_config.resend_cooldown)))
validate_resend_window_iff_example = validate_resend_window_iff service sent 1 world

-- the pair and the session that Ann gets
abbrev generated : Result Error (TokenPair × RefreshSession) × World
generated = generate_token_pair world_platform manager ann world

abbrev no_session : RefreshSession
no_session = record { token_id = []; user_id = 0; username = []; expires_at = 0 }

abbrev pair : TokenPair
pair = (answer (no_pair, no_session) generated.0).0

abbrev session : RefreshSession
session = (answer (no_pair, no_session) generated.0).1

generated_run : generated ≡ (ok (pair, session), generated.1)
unfolding generate_token_pair
generated_run = refl

-- Within its lifetime the token of Ann gives her claims.
parse-generate_example :
    parse_access_token world_platform manager pair.access_token (record world { clock = 1010 })
    ≡ (ok (claims_at manager ann 1000), record world { clock = 1010 })
parse-generate_example =
    parse-generate world_platform manager ann world
      (λ key token claims w u h. ground (arith, decode-encode claims)) generated_run
      (record world { clock = 1010 })

-- Ann has a session under the token "tok" in this world.
abbrev token : Text
token = codes "tok"

abbrev ann_session : RefreshSession
ann_session = record {
  token_id = codes "t";
  user_id = 1;
  username = codes "ann";
  expires_at = 1050;
}

abbrev signed_in : World
signed_in = record world { refresh = record { sessions = insert token ann_session empty } }

abbrev refreshed : Result Error (User × TokenPair) × World
refreshed = refresh service world_refresh_store token signed_in

abbrev new_pair : TokenPair
new_pair = (answer (ann, no_pair) refreshed.0).1

refreshed_run : refreshed ≡ (ok (ann, new_pair), refreshed.1)
unfolding refresh trim_space Refresh.get eq issue_token_pair generate_token_pair Refresh.save
refreshed_run = refl

refresh_iff_example :
    IsRefreshed service world_refresh_store token signed_in ann new_pair refreshed.1
refresh_iff_example =
    (refresh_iff service world_refresh_store token signed_in ann new_pair refreshed.1).0
      refreshed_run

-- The store holds no session under the token.
abbrev pub Absent : Text → World → Type 0
Absent t w = w.refresh.sessions t ≡ none

pub world-Revokes : Revokes world_platform world_refresh_store Absent
unfolding Refresh.save Refresh.get Refresh.remove
world-Revokes = record {
  after_delete = λ t w. ground (arith, eq_refl t);
  get_misses = λ t w h. ground (arith, h);
  kept_by_save = λ t other session w ne h. ground (arith, eq_iff other t);
  kept_by_now = λ t w h. h;
  kept_by_random = λ t size w h. h;
  kept_by_seal = λ t key claims w h. h;
}

other_text : eq new_pair.refresh_token (trim_space token) ≡ false
unfolding refresh trim_space Refresh.get eq issue_token_pair generate_token_pair Refresh.save
other_text = refl

another : new_pair.refresh_token ≢ trim_space token
another = apart_of_eq _ _ other_text

refresh_once_example :
    (refresh service world_refresh_store token refreshed.1).0 ≡ err invalid_refresh_token
refresh_once_example =
    refresh_once service world_refresh_store Absent world-Revokes refl token signed_in refreshed_run
      another

refresh_after_logout_example :
    (refresh service world_refresh_store token
      (logout service world_refresh_store token signed_in).1).0
    ≡ err invalid_refresh_token
refresh_after_logout_example =
    refresh_after_logout service world_refresh_store Absent world-Revokes refl token signed_in
