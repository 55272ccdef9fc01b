-- ===== src/Auth/Service/Session/Rotation.antt =====
-- A refresh token works once: what the service relies on from its refresh store, and what follows.
use mathlib.Core.Path.{subst}
use wesko_go_backend.Common.{◌≡◌, ◌≢◌, inl, inr, some, arith, is_empty, Bool-cases, ℕ}
use wesko_go_backend.Common.Text.{Text, trim_space}
use wesko_go_backend.Common.Exec.{ok, err}
use wesko_go_backend.Auth.Errors.{invalid_refresh_token, cache_miss, is_cache_miss_self}
use wesko_go_backend.Auth.Models.{User, RefreshSession, AccessClaims, TokenPair}
use wesko_go_backend.Auth.Ports.{Platform, RefreshTokenStore}
use wesko_go_backend.Auth.Token.{TokenManager, random_token, generate_token_pair}
use wesko_go_backend.Auth.Token.Laws.{claims_at}
use wesko_go_backend.Auth.Service.Base.{Service, issue_token_pair}
use wesko_go_backend.Auth.Service.Base.Laws.{issue_token_pair-IsIssued}
use wesko_go_backend.Auth.Service.Session.{unknown_token, refresh, logout}
use wesko_go_backend.Auth.Service.Session.Laws.{refresh_iff}

-- The contract of a refresh store beside a platform, for a predicate `Absent` that says of a state
-- that it holds no session for a token.
pub record Revokes {S : Type 0} (p : Platform S) (store : RefreshTokenStore S)
    (Absent : Text → S → Type 0) : Type 0 where
  pub after_delete : (token : Text) (w : S) → Absent token (store.delete token w).1
  pub get_misses : (token : Text) (w : S) → Absent token w → (store.get token w).0 ≡ err cache_miss
  pub kept_by_save :
      (token other : Text) (session : RefreshSession) (w : S)
      → other ≢ token
      → Absent token w
      → Absent token (store.save other session w).1
  pub kept_by_now : (token : Text) (w : S) → Absent token w → Absent token (p.now w).1
  pub kept_by_random :
      (token : Text) (size : ℕ) (w : S) → Absent token w → Absent token (p.read_random size w).1
  pub kept_by_seal :
      (token key : Text) (claims : AccessClaims) (w : S)
      → Absent token w
      → Absent token (p.seal key claims w).1

module _ {S : Type 0} (p : Platform S) (store : RefreshTokenStore S) (Absent : Text → S → Type 0)
    (laws : Revokes p store Absent) where
  random_token-Absent :
      (token : Text) (size : ℕ) (w : S) → Absent token w → Absent token (random_token p size w).1
  unfolding random_token
  random_token-Absent token size w h = ground (arith, laws.kept_by_random token size w h)

  generate_token_pair-Absent :
      (token : Text) (m : TokenManager) (user : User) (w : S)
      → Absent token w
      → Absent token (generate_token_pair p m user w).1
  unfolding generate_token_pair
  generate_token_pair-Absent token m user w h =
      let claims = claims_at m user (p.now w).0 in
      let sealed = (p.seal m.jwe_key claims (p.now w).1).1 in
      let drawn = (random_token p 32 sealed).1 in
      let at_seal = laws.kept_by_seal token m.jwe_key claims _ (laws.kept_by_now token w h) in
      let at_draw = random_token-Absent token 32 sealed at_seal in
      ground (arith, at_seal, at_draw, random_token-Absent token 24 drawn at_draw)

module _ {S : Type 0} (s : Service S) (store : RefreshTokenStore S) (Absent : Text → S → Type 0)
    (laws : Revokes s.platform store Absent) (configured : s.refresh_store ≡ some store) where
  issue_token_pair-Absent :
      (token : Text) (user : User) (w : S) {pair : TokenPair} {t : S}
      → issue_token_pair s user w ≡ (ok pair, t)
      → pair.refresh_token ≢ token
      → Absent token w
      → Absent token t
  issue_token_pair-Absent token user w {pair} {t} h ne a =
      let i = issue_token_pair-IsIssued s user w h in
      let kept = generate_token_pair-Absent s.platform store Absent laws token i.manager user w a in
      let there : Absent token i.middle = subst (λ c. Absent token c.1) i.generated kept in
      let same : i.store ≡ store = cc (i.configured.1) in
      let saved = laws.kept_by_save token pair.refresh_token i.session i.middle ne there in
      let ends : store.save pair.refresh_token i.session i.middle ≡ (ok tt, t) =
        subst
          (λ (r : RefreshTokenStore S). r.save pair.refresh_token i.session i.middle ≡ (ok tt, t))
          same i.saved in
      subst (λ c. Absent token c.1) ends saved

  refresh_of_Absent :
      (raw : Text) (w : S)
      → Absent (trim_space raw) w
      → (refresh s store raw w).0 ≡ err invalid_refresh_token
  unfolding refresh unknown_token
  refresh_of_Absent raw w a =
      ground (arith, laws.get_misses (trim_space raw) w a, is_cache_miss_self)

  -- With a service whose refresh store is one that keeps the contract `Revokes`, a refresh token
  -- that was refreshed is refused as invalid when it is used in the state that the refresh left,
  -- provided that the new token differs from the trimmed old one.
  pub refresh_once :
      (raw : Text) (w : S) {user : User} {pair : TokenPair} {t : S}
      → refresh s store raw w ≡ (ok (user, pair), t)
      → pair.refresh_token ≢ trim_space raw
      → (refresh s store raw t).0 ≡ err invalid_refresh_token
  refresh_once raw w {user} {pair} {t} h ne =
      let r = (refresh_iff s store raw w user pair t).0 h in
      refresh_of_Absent raw t (
        issue_token_pair-Absent (trim_space raw) user _ r.issued ne
          (laws.after_delete (trim_space raw) r.found))

  -- With a service whose refresh store keeps the contract `Revokes`, a refresh in the state that a
  -- logout with the same token left is refused as invalid.
  pub refresh_after_logout :
      (raw : Text) (w : S)
      → (refresh s store raw (logout s store raw w).1).0 ≡ err invalid_refresh_token
  unfolding logout
  refresh_after_logout raw w = elim (Bool-cases (is_empty (trim_space raw))) [
    | inl blank ↦ unfold refresh in ground arith
    | inr given ↦ rw given (refresh_of_Absent raw _ (laws.after_delete (trim_space raw) w))
  ]
