-- ===== src/Redis/Refresh/Laws.antt =====
-- The store of refresh tokens keeps the contract that the session rotation asks for.
use wesko_go_backend.Common.{
  ◌≡◌, ◌≢◌, ℕ, inl, inr, false, Bool-cases, none, ◌-◌, leb, arith, ap, ◌∙◌,
}
use wesko_go_backend.Common.Text.{Text, eq, eq_refl, eq_iff}
use wesko_go_backend.Common.Map.{Map}
use wesko_go_backend.Common.Exec.{ok, err, Result-cases}
use wesko_go_backend.Auth.Errors.{cache_miss}
use wesko_go_backend.Auth.Models.{RefreshSession, AccessClaims}
use wesko_go_backend.Auth.Ports.{Platform}
use wesko_go_backend.Auth.Service.Session.Rotation.{Revokes}
use wesko_go_backend.Redis.Client.{Client, Json, Serves}
use wesko_go_backend.Redis.Keys.{refresh_key}
use wesko_go_backend.Redis.Keys.Laws.{session_of, key_of_iff, key_of}
use wesko_go_backend.Redis.Refresh.{save, get, remove, refresh_store}

-- The clock, randomness and sealing do not write to the server.
pub record LeavesAlone {S : Type 0} (p : Platform S) (stored : S → Map Text) : Type 0 where
  pub now : (w : S) → stored (p.now w).1 ≡ stored w
  pub random : (size : ℕ) (w : S) → stored (p.read_random size w).1 ≡ stored w
  pub seal :
      (key : Text) (claims : AccessClaims) (w : S) → stored (p.seal key claims w).1 ≡ stored w

module _ {S : Type 0} (c : Client S) (p : Platform S) (json : Json RefreshSession)
    (token_key : Text → Text) (stored : S → Map Text) (serves : Serves c stored)
    (alone : LeavesAlone p stored)
    (injective : (a b : Text) → token_key a ≡ token_key b → a ≡ b) where
  -- The server holds no entry under the key of the token.
  abbrev pub Absent : Text → S → Type 0
  Absent token w = stored w (refresh_key token_key token) ≡ none

  refresh_key-eq_ne :
      (a b : Text) → a ≢ b → eq (refresh_key token_key a) (refresh_key token_key b) ≡ false
  unfolding key_of
  refresh_key-eq_ne a b ne =
      elim (Bool-cases (eq (refresh_key token_key a) (refresh_key token_key b))) [
        | inr q ↦ q
        | inl q ↦
            let same =
              (key_of_iff token_key injective (session_of a) (session_of b)).0
                ((eq_iff (refresh_key token_key a) (refresh_key token_key b)).0 q) in
            absurd (ne cc)
      ]

  save-Absent :
      (token other : Text) (session : RefreshSession) (w : S)
      → other ≢ token
      → Absent token w
      → Absent token (save c p json token_key other session w).1
  unfolding save
  save-Absent token other session w ne h = elim (Result-cases (json.marshal session)) [
    | inr (e, q) ↦ ground (arith, h)
    | inl (payload, q) ↦
        let (now, v) = p.now w in
        let ttl = session.expires_at - now in
        let apart = refresh_key-eq_ne other token ne in
        let kept = alone.now w in
        let others =
          serves.sets_only (refresh_key token_key other) payload ttl v (refresh_key token_key token)
            apart in
        elim (Bool-cases (leb session.expires_at now)) [
          | inl b ↦ ground (arith, h, kept)
          | inr b ↦ ground (arith, h, kept, others)
        ]
  ]

  get-Absent :
      (token : Text) (w : S) → Absent token w → (get c p json token_key token w).0 ≡ err cache_miss
  unfolding get
  get-Absent token w h =
      let (e, q, r) = serves.misses (refresh_key token_key token) w h in ground (arith, q, r)

  remove-Absent :
      ((k : Text) (w : S) → (t : S) × (c.del k w ≡ (ok tt, t)))
      → (token : Text) (w : S) → Absent token (remove c p json token_key token w).1
  unfolding remove
  remove-Absent answers token w =
      let k = refresh_key token_key token in
      let (t, q) = answers k w in
      let gone = serves.deletes k w t q k in ground (arith, q, gone, eq_refl k)

  -- If the server answers every deletion, no two tokens have the same hash, and the clock, randomness
  -- and sealing do not write to it, the Redis store of refresh tokens keeps the contract `Revokes`:
  -- a token that was deleted is not found, until a session is saved under it.
  pub refresh_store-Revokes :
      (answers : (k : Text) (w : S) → (t : S) × (c.del k w ≡ (ok tt, t)))
      → Revokes p (refresh_store c p json token_key) Absent
  refresh_store-Revokes answers = record {
    after_delete = remove-Absent answers;
    get_misses = get-Absent;
    kept_by_save = save-Absent;
    kept_by_now = λ token w h. ap (λ m. m (refresh_key token_key token)) (alone.now w) ∙ h;
    kept_by_random =
        λ token size w h. ap (λ m. m (refresh_key token_key token)) (alone.random size w) ∙ h;
    kept_by_seal = λ token key claims w h.
        ap (λ m. m (refresh_key token_key token)) (alone.seal key claims w) ∙ h;
  }
