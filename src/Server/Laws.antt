-- ===== src/Server/Laws.antt =====
-- Which origins the CORS middleware lets in.
use wesko_go_backend.Common.{
  ◌≡◌, ◌≢◌, ◌↔◌, ◌⊎◌, refl, inl, inr, true, false, some, List, [], ◌∷◌, any, is_empty,
  if◌then◌else◌, ◌∙◌, sym, Bool-cases, arith,
}
use wesko_go_backend.Common.Text.{empty_iff, Text, eq, eq_iff, eq_refl, trim_space}
use wesko_go_backend.Server.{allowed_origins, is_allowed, cors}

-- One of the configured origins is the origin, but for the space around it.
abbrev pub IsListed : Text → List Text → Type 0
IsListed origin [] = ⊥
IsListed origin (o ∷ os) = (origin ≡ trim_space o) ⊎ IsListed origin os

any_sound :
    (origin : Text) (os : List Text)
    → any (eq origin) (allowed_origins os) ≡ true
    → IsListed origin os
unfolding allowed_origins
any_sound origin [] h = absurd (ground arith)
any_sound origin (o ∷ os) h = ground (arith, eq_iff origin (trim_space o), any_sound origin os)

first_kept :
    (s : Text) (rest : List Text)
    → s ≢ []
    → any (eq s) (if is_empty s then rest else s ∷ rest) ≡ true
first_kept [] rest n = absurd (n refl)
first_kept (c ∷ s) rest n = ground (arith, eq_refl (c ∷ s))

any_complete :
    (origin : Text) (os : List Text)
    → origin ≢ []
    → IsListed origin os
    → any (eq origin) (allowed_origins os) ≡ true
unfolding allowed_origins
any_complete origin [] n h = absurd h
any_complete origin (o ∷ os) n (inl e) =
    rw e (first_kept (trim_space o) (allowed_origins os) (λ q. n (e ∙ q)))
any_complete origin (o ∷ os) n (inr k) = let rest = any_complete origin os n k in ground arith

cors_sound :
    (origins : List Text) (header method origin : Text)
    → (cors origins header method).allow_origin ≡ some origin
    → (origin ≡ trim_space header) × (origin ≢ []) × IsListed origin origins
unfolding cors is_allowed
cors_sound origins header method origin h =
    elim (Bool-cases (any (eq (trim_space header)) (allowed_origins origins))) [
      | inr e ↦ absurd (ground arith)
      | inl e ↦
          let listed = any_sound (trim_space header) origins e in
          let given : is_empty (trim_space header) ≡ false = ground arith in
          let same : origin ≡ trim_space header = ground arith in
          (same, λ q. (empty_iff (trim_space header)).0 given (sym same ∙ q), rw same listed)
    ]

cors_complete :
    (origins : List Text) (header method origin : Text)
    → (origin ≡ trim_space header) × (origin ≢ []) × IsListed origin origins
    → (cors origins header method).allow_origin ≡ some origin
unfolding cors is_allowed
cors_complete origins header method origin (e, n, k) =
    let there = any_complete (trim_space header) origins (λ q. n (e ∙ q)) (rw e at k) in
    let given = (empty_iff (trim_space header)).1 (λ q. n (e ∙ q)) in ground arith

-- The CORS headers allow an origin exactly if it is the trimmed Origin header of the request, is not
-- empty, and is one of the configured origins but for the space around it.
pub cors_iff :
    (origins : List Text) (header method origin : Text)
    → ((cors origins header method).allow_origin ≡ some origin)
      ↔ ((origin ≡ trim_space header) × (origin ≢ []) × IsListed origin origins)
cors_iff origins header method origin =
    (cors_sound origins header method origin, cors_complete origins header method origin)
