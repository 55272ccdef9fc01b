-- ===== src/Server.antt =====
-- server/http.go: the CORS middleware, the id of a request, the readiness route and the summary of a
-- user agent. Registering routes, serving and logging are calls of gin, net/http and slog.
pub mod Laws
use wesko_go_backend.Common.{
  ℕ, Bool, true, false, not, ◌&&◌, ◌||◌, Option, none, some, List, [], ◌∷◌, any, is_empty,
  if◌then◌else◌,
}
use wesko_go_backend.Common.Text.{includes, encode_hex, Text, codes, eq, trim_space, to_lower}
use wesko_go_backend.Common.Exec.{Result, ok, err}

-- The loop that fills `allowed`: the keys of the map.
unfoldable pub allowed_origins : List Text → List Text
allowed_origins [] = []
allowed_origins (origin ∷ origins) =
    let rest = allowed_origins origins in
    if is_empty (trim_space origin) then rest else trim_space origin ∷ rest

-- `_, ok := allowed[origin]`
unfoldable pub is_allowed : List Text → Text → Bool
unfolding allowed_origins
is_allowed origins origin = any (eq origin) (allowed_origins origins)

-- What the middleware does with a request: it goes on to the handlers, sets a status and returns, or
-- aborts with a status. gin goes on to the handlers after a return too: only an abort stops it.
pub data Outcome : Type 0 where
  next : Outcome
  status_set : ℕ → Outcome
  aborted : ℕ → Outcome

-- The answer of corsMiddleware: the origin that the headers allow, if they are set, and the outcome.
pub record CorsAnswer : Type 0 where
  pub allow_origin : Option Text
  pub outcome : Outcome

unfoldable pub cors_outcome : List Text → Text → Text → Outcome
unfolding is_allowed
cors_outcome origins origin method =
    if not (eq method (codes "OPTIONS"))
    then next
    else if is_empty origin || is_allowed origins origin
    then status_set 204
    else aborted 403

unfoldable pub cors : List Text → Text → Text → CorsAnswer
unfolding cors_outcome is_allowed
cors origins header method =
    let origin = trim_space header in
    record {
      allow_origin =
          if not (is_empty origin) && is_allowed origins origin then some origin else none;
      outcome = cors_outcome origins origin method;
    }

-- The id that requestContextMiddleware gives a request, from the header and the bytes that
-- newRequestID draws; `fall_back` is the id of the clock, for a failed draw.
unfoldable pub request_id_of : Text → Result Text (List ℕ) → Text
request_id_of header drawn =
    if not (is_empty (trim_space header))
    then trim_space header
    else elim drawn [ ok bytes ↦ encode_hex bytes | err fall_back ↦ fall_back ]

-- The route /ready: no check, or the result of the check.
unfoldable pub ready_status : Option (Result Text Unit) → ℕ
ready_status none = 200
ready_status (some (ok done)) = 200
ready_status (some (err e)) = 503

-- The three switches of summarizeUserAgent.
unfoldable pub browser_of : Text → Text
browser_of ua =
    if includes ua (codes "edg/")
    then codes "edge"
    else if includes ua (codes "opr/") || includes ua (codes "opera")
    then codes "opera"
    else if includes ua (codes "chrome/")
        && not (includes ua (codes "edg/"))
        && not (includes ua (codes "opr/"))
    then codes "chrome"
    else if includes ua (codes "firefox/")
    then codes "firefox"
    else if includes ua (codes "safari/") && not (includes ua (codes "chrome/"))
    then codes "safari"
    else if includes ua (codes "postmanruntime/")
    then codes "postman"
    else if includes ua (codes "curl/")
    then codes "curl"
    else codes "unknown"

unfoldable pub platform_of : Text → Text
platform_of ua =
    if includes ua (codes "windows")
    then codes "windows"
    else if includes ua (codes "android")
    then codes "android"
    else if includes ua (codes "iphone") || includes ua (codes "ipad") || includes ua (codes "ios")
    then codes "ios"
    else if includes ua (codes "mac os x") || includes ua (codes "macintosh")
    then codes "macos"
    else if includes ua (codes "linux")
    then codes "linux"
    else codes "unknown"

unfoldable pub device_type_of : Text → Text → Text
device_type_of ua browser =
    if includes ua (codes "bot") || includes ua (codes "spider") || includes ua (codes "crawler")
    then codes "bot"
    else if includes ua (codes "ipad") || includes ua (codes "tablet")
    then codes "tablet"
    else if includes ua (codes "mobile")
        || includes ua (codes "iphone")
        || includes ua (codes "android")
    then codes "mobile"
    else if eq browser (codes "curl") || eq browser (codes "postman")
    then codes "script"
    else codes "desktop"

-- summarizeUserAgent, where `lower` is unicode.ToLower off ASCII
unfoldable pub summarize_user_agent : (ℕ → ℕ) → Text → Text × (Text × Text)
unfolding browser_of platform_of device_type_of
summarize_user_agent lower user_agent =
    let ua = to_lower lower (trim_space user_agent) in
    if is_empty ua
    then (codes "unknown", (codes "unknown", codes "unknown"))
    else (browser_of ua, (platform_of ua, device_type_of ua (browser_of ua)))
