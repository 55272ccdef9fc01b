-- ===== src/Redis/Keys/Laws.antt =====
-- No two entries share a key.
use wesko_go_backend.Common.{
  Bool-cases, false, ◌≡◌, ◌≢◌, ◌↔◌, ◌⊎◌, inl, inr, refl, ap, List, Option, none, some, [], ◌∷◌,
  ◌==◌, if◌then◌else◌, arith,
}
use wesko_go_backend.Common.Text.{Text, codes, eq, eq_iff}
use wesko_go_backend.Redis.Keys.{
  signup_key, username_key, email_key, mobile_index_key, otp_state_key, refresh_key, cache_key,
  limit_key,
}

-- What an entry of the server is about.
pub data Entry : Type 0 where
  signup_of username_of email_of mobile_index_of otp_state_of session_of user_of count_of :
      Text → Entry

unfoldable pub key_of : (Text → Text) → Entry → Text
key_of token_key (signup_of mobile) = signup_key mobile
key_of token_key (username_of username) = username_key username
key_of token_key (email_of email) = email_key email
key_of token_key (mobile_index_of mobile) = mobile_index_key mobile
key_of token_key (otp_state_of key) = otp_state_key key
key_of token_key (session_of token) = refresh_key token_key token
key_of token_key (user_of username) = cache_key username
key_of token_key (count_of key) = limit_key key

-- The rest of a text after a prefix.
strip : Text → Text → Option Text
strip [] s = some s
strip (p ∷ ps) [] = none
strip (p ∷ ps) (c ∷ s) = if p == c then strip ps s else none

-- The entry that the first prefix of a list that fits shows.
read_with : List (Text × (Text → Entry)) → Text → Option Entry
unfolding strip
read_with [] s = none
read_with ((p, entry) ∷ ps) s = elim (strip p s) [
  | none ↦ read_with ps s
  | some rest ↦ some (entry rest)
]

abbrev prefixes : List (Text × (Text → Entry))
prefixes =
    (codes "auth:pending_signup:mobile:", signup_of)
    ∷ (codes "auth:pending_signup:username:", username_of)
    ∷ (codes "auth:pending_signup:email:", email_of)
    ∷ (codes "auth:pending_signup:index_mobile:", mobile_index_of)
    ∷ (codes "auth:otp_state:", otp_state_of)
    ∷ (codes "auth:refresh:", session_of)
    ∷ (codes "auth:user:", user_of)
    ∷ (codes "auth:rate_limit:", count_of)
    ∷ []

-- The entry that a key shows: a token only by its hash.
hashed : (Text → Text) → Entry → Entry
hashed token_key (session_of token) = session_of (token_key token)
hashed token_key e = e

read-key_of :
    (token_key : Text → Text) (e : Entry)
    → read_with prefixes (key_of token_key e) ≡ some (hashed token_key e)
unfolding read_with key_of hashed signup_key username_key email_key mobile_index_key otp_state_key
    refresh_key cache_key limit_key
read-key_of token_key (signup_of mobile) = refl
read-key_of token_key (username_of username) = refl
read-key_of token_key (email_of email) = refl
read-key_of token_key (mobile_index_of mobile) = refl
read-key_of token_key (otp_state_of key) = refl
read-key_of token_key (session_of token) = refl
read-key_of token_key (user_of username) = refl
read-key_of token_key (count_of key) = refl

-- A token's session, or an entry that the hash leaves alone.
hashed-cases :
    (token_key : Text → Text) (e : Entry)
    → ((t : Text) × (e ≡ session_of t))
      ⊎ ((hashed token_key e ≡ e) × ((t : Text) → e ≢ session_of t))
unfolding hashed
hashed-cases token_key (session_of t) = inl (t, refl)
hashed-cases token_key _ = inr (refl, λ t e. cc)

module _ (token_key : Text → Text)
    (injective : (a b : Text) → token_key a ≡ token_key b → a ≡ b) where
  hashed-injective : (a b : Entry) → hashed token_key a ≡ hashed token_key b → a ≡ b
  unfolding hashed
  hashed-injective a b h = elim (hashed-cases token_key a) [
    | inl (t, p) ↦ elim (hashed-cases token_key b) [
      | inl (u, q) ↦ let same = injective t u in ground arith
      | inr (q, apart) ↦ absurd (apart (token_key t) (ground arith))
    ]
    | inr (p, apart) ↦ elim (hashed-cases token_key b) [
      | inl (u, q) ↦ absurd (apart (token_key u) (ground arith))
      | inr (q, _) ↦ cc
    ]
  ]

  key_of_injective : (a b : Entry) → key_of token_key a ≡ key_of token_key b → a ≡ b
  key_of_injective a b h = hashed-injective a b (
      let shown_a = read-key_of token_key a in
      let shown_b = read-key_of token_key b in let same = ap (read_with prefixes) h in cc)

  -- If no two tokens have the same hash, two entries of the Redis stores share a key exactly if they
  -- are the same entry: entries of one store, or of different ones, never meet under a key, whatever
  -- names, addresses and numbers they are about.
  pub key_of_iff : (a b : Entry) → (key_of token_key a ≡ key_of token_key b) ↔ (a ≡ b)
  key_of_iff a b = (key_of_injective a b, ap (key_of token_key))

-- Entries that are not the same have keys that a lookup tells apart.
pub key_of-eq_ne : (a b : Entry) → a ≢ b → eq (key_of (λ t. t) a) (key_of (λ t. t) b) ≡ false
key_of-eq_ne a b ne = elim (Bool-cases (eq (key_of (λ t. t) a) (key_of (λ t. t) b))) [
  | inr q ↦ q
  | inl q ↦ absurd (ne ((key_of_iff (λ t. t) (λ s t h. h) a b).0 ((eq_iff _ _).0 q)))
]
