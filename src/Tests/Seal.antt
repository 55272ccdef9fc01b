-- ===== src/Tests/Seal.antt =====
-- A stand-in for sealed tokens, and that it can be undone.
use wesko_go_backend.Common.{
  ℕ, zero, suc, ◌≡◌, refl, ap, [], ◌∷◌, ◌++◌, arith, length, ◌==◌, if◌then◌else◌,
}
use wesko_go_backend.Common.Text.{Text}
use wesko_go_backend.Common.Exec.{Result, ok, err}
use wesko_go_backend.Auth.Errors.{Error, invalid_token}
use wesko_go_backend.Auth.Models.{AccessClaims}

-- A stand-in for sealing that writes the claims down one after the other.
abbrev pub encode : AccessClaims → Text
encode c =
    c.issued_at
      ∷ c.expires_at
      ∷ (if c.is_profile_complete then 1 else 0)
      ∷ length c.subject
      ∷ length c.token_type
      ∷ c.subject
    ++ (c.token_type ++ c.role)

abbrev pub split : ℕ → Text → Text × Text
split zero s = ([], s)
split (suc n) [] = ([], [])
split (suc n) (c ∷ s) = let (a, b) = split n s in (c ∷ a, b)

abbrev pub decode : Text → Result Error AccessClaims
decode (issued ∷ expires ∷ flag ∷ subject ∷ type ∷ s) = ok (record {
  subject = (split subject s).0;
  token_type = (split type (split subject s).1).0;
  role = (split type (split subject s).1).1;
  is_profile_complete = flag == 1;
  issued_at = issued;
  expires_at = expires;
})
decode _ = err invalid_token

pub split-length : (a b : Text) → split (length a) (a ++ b) ≡ (a, b)
split-length [] b = refl
split-length (c ∷ a) b = ap (λ (p : Text × Text). (c ∷ p.0, p.1)) (split-length a b)

pub decode-encode : (c : AccessClaims) → decode (encode c) ≡ ok c
decode-encode c =
    rw (split-length c.subject (c.token_type ++ c.role), split-length c.token_type c.role)
      (ground arith)
