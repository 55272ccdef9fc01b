-- ===== src/Auth/Token.antt =====
-- auth/token_manager.go. The JSON and JWE steps of encrypt and decrypt are the platform's.
pub mod Laws
use wesko_go_backend.Common.{
  ℕ, ◌+◌, ◌-◌, ◌*◌, ◌/◌, ◌%◌, ◌≡◌, refl, Bool, true, false, List, [], ◌∷◌, ◌++◌, ltb, ◌==◌,
  if◌then◌else◌,
}
use wesko_go_backend.Common.Text.{Text, codes, eq, byte_len}
use wesko_go_backend.Common.Exec.{Result, ok, err, pure, lift, raise, map_err, ◌>>=◌}
use wesko_go_backend.Auth.Errors.{Error, invalid_jwe_key, invalid_token, token_expired}
use wesko_go_backend.Auth.Models.{Duration, User, AccessClaims, RefreshSession, TokenPair}
use wesko_go_backend.Auth.Ports.{Call, Platform, read_clock}

pub record TokenManager : Type 0 where
  pub issuer : Text
  pub jwe_key : Text
  pub access_token_ttl : Duration
  pub refresh_token_ttl : Duration

unfoldable pub new_token_manager : Text → Text → Duration → Duration → Result Error TokenManager
new_token_manager issuer jwe_key access_ttl refresh_ttl =
    if byte_len jwe_key == 32
    then ok (record {
      issuer = issuer;
      jwe_key = jwe_key;
      access_token_ttl = access_ttl;
      refresh_token_ttl = refresh_ttl;
    })
    else err invalid_jwe_key

-- The alphabet of base64.RawURLEncoding.
base64_char : ℕ → ℕ
base64_char n =
    if ltb n 26
    then n + 65
    else if ltb n 52
    then n + 71
    else if ltb n 62
    then n - 4
    else if n == 62
    then b'-'
    else b'_'

encode_base64 : List ℕ → Text
encode_base64 [] = []
encode_base64 (a ∷ []) = base64_char (a / 4) ∷ base64_char (a % 4 * 16) ∷ []
encode_base64 (a ∷ b ∷ []) =
    base64_char (a / 4) ∷ base64_char (a % 4 * 16 + b / 16) ∷ base64_char (b % 16 * 4) ∷ []
encode_base64 (a ∷ b ∷ c ∷ rest) =
    base64_char (a / 4)
    ∷ base64_char (a % 4 * 16 + b / 16)
    ∷ base64_char (b % 16 * 4 + c / 64)
    ∷ base64_char (c % 64)
    ∷ encode_base64 rest

-- Duration.Seconds, cut to an integer
abbrev pub seconds : Duration → ℕ
seconds d = d / 1000000000

module _ {S : Type 0} (p : Platform S) where
  unfoldable pub random_token : ℕ → Call S Text
  unfolding encode_base64 base64_char
  random_token size = do bytes ← p.read_random size; pure (encode_base64 bytes)

  unfoldable pub generate_token_pair : TokenManager → User → Call S (TokenPair × RefreshSession)
  unfolding random_token
  generate_token_pair m user = do
    now ← read_clock p
    access_token ← p.seal m.jwe_key (record {
      subject = user.username;
      token_type = codes "access";
      role = user.role;
      is_profile_complete = user.is_profile_complete;
      issued_at = now;
      expires_at = now + m.access_token_ttl;
    })
    raw_refresh_token ← random_token 32
    token_id ← random_token 24
    pure (
      record {
        access_token = access_token;
        refresh_token = token_id ++ codes "." ++ raw_refresh_token;
        token_type = codes "Bearer";
        access_token_expires_in = seconds m.access_token_ttl;
        refresh_token_expires_in = seconds m.refresh_token_ttl;
      },
      record {
        token_id = token_id;
        user_id = user.id;
        username = user.username;
        expires_at = now + m.refresh_token_ttl;
      },
    )

  unfoldable pub parse_access_token : TokenManager → Text → Call S AccessClaims
  parse_access_token m token = do
    claims ← map_err (λ _. invalid_token) (lift (p.unseal m.jwe_key token))
    if eq claims.token_type (codes "access")
        then (do
          now ← read_clock p
          if ltb claims.expires_at now then raise token_expired else pure claims)
        else raise invalid_token

encode_example : encode_base64 (77 ∷ 97 ∷ 110 ∷ 255 ∷ []) ≡ codes "TWFu_w"
unfolding encode_base64 base64_char
encode_example = refl
