-- ===== src/Common/Exec.antt =====
-- Go functions that return a value and an error, over a state: a call changes the state whether or
-- not it fails. The value that stands beside an error in Go is not kept.
pub mod Ensures
use mathlib.Core.Path.{◌≡◌, refl}
use mathlib.Core.Logic.{◌⊎◌, inl, inr}

pub data Result {ℓ} (E A : Type ℓ) : Type ℓ where
  ok : A → Result E A
  err : E → Result E A

abbrev pub Exec {ℓ} : Type ℓ → Type ℓ → Type ℓ → Type ℓ
Exec S E A = S → Result E A × S

module _ {ℓ} {S E A : Type ℓ} where
  abbrev pub pure : A → Exec S E A
  pure a s = (ok a, s)

  abbrev pub raise : E → Exec S E A
  raise e s = (err e, s)

  -- a pure computation that may fail
  abbrev pub lift : Result E A → Exec S E A
  lift r s = (r, s)

  -- `a, err := m()` with the error looked at later
  abbrev pub attempt : Exec S E A → Exec S E (Result E A)
  attempt m s = let (r, s') = m s in (ok r, s')

  -- `if err != nil { return f(err) }`
  abbrev pub map_err : (E → E) → Exec S E A → Exec S E A
  map_err f m s = let (r, s') = m s in (elim r [ ok a ↦ ok a | err e ↦ err (f e) ], s')

  -- `_ = m()`
  abbrev pub ignore : Exec S E A → Exec S E (Unit {ℓ})
  ignore m s = let (r, s') = m s in (ok tt, s')

pub Result-cases {ℓ} :
    {E A : Type ℓ} (r : Result E A) → ((a : A) × (r ≡ ok a)) ⊎ ((e : E) × (r ≡ err e))
Result-cases (ok a) = inl (a, refl)
Result-cases (err e) = inr (e, refl)

-- How a call ended.
pub Call-cases {ℓ} :
    {S E A : Type ℓ} (c : Result E A × S)
    → ((a : A) × (t : S) × (c ≡ (ok a, t))) ⊎ ((e : E) × (t : S) × (c ≡ (err e, t)))
Call-cases (ok a, t) = inl (a, t, refl)
Call-cases (err e, t) = inr (e, t, refl)

infixl 5 ◌>>=◌ ◌>>◌
abbrev pub ◌>>=◌ {ℓ} : {S E A B : Type ℓ} → Exec S E A → (A → Exec S E B) → Exec S E B
◌>>=◌ m f s = let (r, s') = m s in elim r [ ok a ↦ f a s' | err e ↦ (err e, s') ]

abbrev pub ◌>>◌ {ℓ} : {S E A B : Type ℓ} → Exec S E A → Exec S E B → Exec S E B
m >> k = m >>= λ _. k
