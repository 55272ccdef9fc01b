-- ===== src/Tests/Startup.antt =====
-- A configuration, the origins of a server, and a rate limit over time.
use wesko_go_backend.Configs.Env.{get_env_bool}
use wesko_go_backend.Common.Int.{wrap_int}
use wesko_go_backend.Configs.Env.{get_env_int}
use wesko_go_backend.Configs.Env.{duration}
use wesko_go_backend.Configs.Env.{get_first_env_string}
use wesko_go_backend.Configs.Env.{get_env_string}
use wesko_go_backend.Common.{
  ◌≡◌, ◌≢◌, refl, true, none, some, List, [], ◌∷◌, arith, if◌then◌else◌, Option,
}
use wesko_go_backend.Common.Text.{Text, codes, eq, byte_len, trim_space}
use wesko_go_backend.Common.Exec.{ok, err}
use wesko_go_backend.Common.Decimal.{atoi}
use wesko_go_backend.Auth.Models.{RateLimitRule}
use wesko_go_backend.Configs.{Configs}
use wesko_go_backend.Configs.Env.{Env}
use wesko_go_backend.Configs.Load.{load}
use wesko_go_backend.Configs.Validate.{validate}
use wesko_go_backend.Startup.Laws.{Starts, Starts-validate}
use wesko_go_backend.Server.{cors}
use wesko_go_backend.Server.Laws.{IsListed, cors_iff}
use wesko_go_backend.Memory.RateLimit
use wesko_go_backend.Memory.RateLimit.{new_rate_limiter}
use wesko_go_backend.Memory.RateLimit.Readmission.{after_calls, allow-after_calls}

abbrev env : Env
env name =
    if eq name (codes "DB_PASS")
    then some (codes "secret")
    else if eq name (codes "AUTH_JWE_KEY")
    then some (codes "0123456789abcdef0123456789abcdef")
    else none

abbrev config : Configs
config = load (λ raw. none) env

abbrev no_split : Text → Option (Text × Text)
no_split addr = none

validate_run : validate no_split config ≡ ok tt
unfolding validate load trim_space eq get_env_string atoi get_first_env_string byte_len duration
    get_env_int wrap_int get_env_bool
validate_run = refl

Starts-validate_example : Starts config
Starts-validate_example = Starts-validate no_split config validate_run

-- Nothing set: the password of the database is asked for.
unset_run :
    validate no_split (load (λ raw. none) (λ name. none)) ≡ err (codes "DB_PASS is required")
unfolding validate load trim_space get_env_string
unset_run = refl

abbrev origins : List Text
origins = codes " https://wesko.in " ∷ []

cors_run :
    (cors origins (codes "https://wesko.in") (codes "GET")).allow_origin
    ≡ some (codes "https://wesko.in")
unfolding cors trim_space eq
cors_run = refl

cors_iff_example :
    (codes "https://wesko.in" ≡ trim_space (codes "https://wesko.in"))
    × (codes "https://wesko.in" ≢ [])
    × IsListed (codes "https://wesko.in") origins
cors_iff_example =
    (cors_iff origins (codes "https://wesko.in") (codes "GET") (codes "https://wesko.in")).0
      cors_run

abbrev once : RateLimitRule
once = record { limit = 1; window = 100 }

-- The second and the third call are refused, and the one at 151 is admitted.
allow-after_calls_example :
    (RateLimit.allow 151
      (codes "ip")
      once
      (after_calls (codes "ip") once (50 ∷ 7 ∷ 5 ∷ []) new_rate_limiter)).0
    ≡ true
allow-after_calls_example =
    allow-after_calls (codes "ip") once (50 ∷ 7 ∷ 5 ∷ []) 50 151 new_rate_limiter
      (omega arith, (omega arith, (omega arith, tt))) (omega arith) (omega arith) (omega arith)
