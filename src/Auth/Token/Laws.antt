-- ===== src/Auth/Token/Laws.antt =====
-- An access token that was issued is read back, until it expires.
use wesko_go_backend.Common.{◌+◌, ◌≡◌, inl, inr, arith, ◌++◌, ltb, if◌then◌else◌}
use wesko_go_backend.Common.Text.{Text, codes, eq_refl}
use wesko_go_backend.Common.Exec.{ok, err, Call-cases}
use wesko_go_backend.Auth.Errors.{token_expired}
use wesko_go_backend.Auth.Models.{Time, User, AccessClaims, RefreshSession, TokenPair}
use wesko_go_backend.Auth.Ports.{Platform}
use wesko_go_backend.Auth.Token.{
  TokenManager, random_token, generate_token_pair, parse_access_token,
}

-- The claims that a manager gives a user at a time.
abbrev pub claims_at : TokenManager → User → Time → AccessClaims
claims_at m user now = record {
  subject = user.username;
  token_type = codes "access";
  role = user.role;
  is_profile_complete = user.is_profile_complete;
  issued_at = now;
  expires_at = now + m.access_token_ttl;
}

module _ {S : Type 0} (p : Platform S) where
  -- What a pair that was generated consists of.
  pub record IsGenerated (m : TokenManager) (user : User) (w : S) (pair : TokenPair)
      (session : RefreshSession) : Type 0 where
    pub sealed_by :
        (u : S) × (p.seal m.jwe_key (claims_at m user (p.now w).0) (p.now w).1
          ≡ (ok pair.access_token, u))
    pub named : session.username ≡ user.username
    pub owned : session.user_id ≡ user.id
    pub lives : session.expires_at ≡ (p.now w).0 + m.refresh_token_ttl
    pub tail : Text
    pub prefixed : pair.refresh_token ≡ session.token_id ++ codes "." ++ tail

  pub generate_token_pair-IsGenerated :
      (m : TokenManager) (user : User) (w : S) {pair : TokenPair} {session : RefreshSession} {t : S}
      → generate_token_pair p m user w ≡ (ok (pair, session), t)
      → IsGenerated m user w pair session
  unfolding generate_token_pair
  generate_token_pair-IsGenerated m user w h =
      elim (Call-cases (p.seal m.jwe_key (claims_at m user (p.now w).0) (p.now w).1)) [
        | inr (e, u, q) ↦ ground arith
        | inl (access, u, q) ↦ elim (Call-cases (random_token p 32 u)) [
          | inr (e, v, q') ↦ ground arith
          | inl (raw, v, q') ↦ elim (Call-cases (random_token p 24 v)) [
            | inr (e, x, q'') ↦ ground arith
            | inl (token_id, x, q'') ↦ record {
              sealed_by = (u, ground arith);
              named = ground arith;
              owned = ground arith;
              lives = ground arith;
              tail = raw;
              prefixed = ground arith;
            }
          ]
        ]
      ]

  -- What the documentation of JWE promises: what was sealed under a key is unsealed by that key.
  abbrev pub Unseals : Type 0
  Unseals =
      (key token : Text) (claims : AccessClaims) (w u : S)
      → p.seal key claims w ≡ (ok token, u)
      → p.unseal key token ≡ ok claims

  parse_sealed :
      (m : TokenManager) (token : Text) (user : User) (now : Time) (v : S)
      → p.unseal m.jwe_key token ≡ ok (claims_at m user now)
      → parse_access_token p m token v ≡ (
        if ltb (now + m.access_token_ttl) (p.now v).0
            then err token_expired
            else ok (claims_at m user now),
        (p.now v).1,
      )
  unfolding parse_access_token
  parse_sealed m token user now v h = ground (arith, eq_refl (codes "access"))

  -- If unsealing undoes sealing, the access token of a generated pair is accepted up to the end of
  -- its lifetime with the claims of the user, and is refused as expired after it.
  pub parse-generate :
      (m : TokenManager) (user : User) (w : S) {pair : TokenPair} {session : RefreshSession} {t : S}
      → Unseals
      → generate_token_pair p m user w ≡ (ok (pair, session), t)
      → (v : S)
      → parse_access_token p m pair.access_token v ≡ (
        if ltb ((p.now w).0 + m.access_token_ttl) (p.now v).0
            then err token_expired
            else ok (claims_at m user (p.now w).0),
        (p.now v).1,
      )
  parse-generate m user w unseals h v =
      let g = generate_token_pair-IsGenerated m user w h in
      let (u, q) = g.sealed_by in parse_sealed m _ user (p.now w).0 v (unseals _ _ _ _ _ q)
