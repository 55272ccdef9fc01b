-- ===== src/Common/Exec/Ensures.antt =====
-- What calls keep of the state and what holds of their answers, put together along the blocks.
use mathlib.Core.Path.{◌≡◌, refl}
use mathlib.Core.Bool.{Bool, true, false}
use wesko_go_backend.Common.Tests.{if◌then◌else◌}
use wesko_go_backend.Common.Exec.{Result, ok, err, Exec, raise, lift, ◌>>=◌}

-- An answer, if there is one, has the property. (An error promises nothing.)
abbrev pub OnOk {ℓ} : {E A : Type ℓ} → (A → Type ℓ) → Result E A → Type ℓ
OnOk Q (ok a) = Q a
OnOk Q (err e) = Unit

-- From a state with `P` the call ends in one, and what it answers has `Q`.
abbrev pub Ensures {ℓ} : {S E A : Type ℓ} → (S → Type ℓ) → (A → Type ℓ) → Exec S E A → Type ℓ
Ensures {S} P Q m = (w : S) → P w → P (m w).1 × OnOk Q (m w).0

module _ {ℓ} {S E A : Type ℓ} (P : S → Type ℓ) (Q : A → Type ℓ) where
  pub Ensures-lift : (r : Result E A) → OnOk Q r → Ensures P Q (lift r)
  Ensures-lift r q w p = (p, q)

  pub Ensures-forget : (m : Exec S E A) → Ensures P Q m → Ensures P (λ _. Unit {ℓ}) m
  Ensures-forget m h w p = ((h w p).0, trivial (m w).0)
    where
      trivial : (r : Result E A) → OnOk (λ _. Unit {ℓ}) r
      trivial (ok a) = tt
      trivial (err e) = tt

  pub Ensures-if :
      (b : Bool) (m k : Exec S E A)
      → Ensures P Q m
      → (b ≡ false → Ensures P Q k)
      → Ensures P Q (if b then m else k)
  Ensures-if true m k f g w p = f w p
  Ensures-if false m k f g w p = g refl w p

  -- `if b { return e }`
  pub Ensures-guard :
      (b : Bool) (e : E) (m : Exec S E A)
      → (b ≡ false → Ensures P Q m)
      → Ensures P Q (if b then raise e else m)
  Ensures-guard true e m f w p = (p, tt)
  Ensures-guard false e m f w p = f refl w p

module _ {ℓ} {S E A B : Type ℓ} (P : S → Type ℓ) (Q : A → Type ℓ) (R : B → Type ℓ) where
  pub Ensures-bind :
      (m : Exec S E A) (f : A → Exec S E B)
      → Ensures P Q m
      → ((a : A) → Q a → Ensures P R (f a))
      → Ensures P R (m >>= f)
  Ensures-bind m f hm hf w p = go (m w).0 (m w).1 (hm w p)
    where
      go :
          (r : Result E A) (t : S)
          → P t × OnOk Q r
          → P (elim r as (λ _. Result E B × S) [ ok a ↦ f a t | err e ↦ (err e, t) ]).1
            × OnOk R (elim r as (λ _. Result E B × S) [ ok a ↦ f a t | err e ↦ (err e, t) ]).0
      go (ok a) t (k, q) = hf a q t k
      go (err e) t (k, q) = (k, tt)

  -- `a, err := r; if err != nil { return err }`, the check not touching the state
  pub Ensures-check :
      (r : Result E A) (f : A → Exec S E B)
      → OnOk Q r
      → ((a : A) → Q a → Ensures P R (f a))
      → Ensures P R (lift r >>= f)
  Ensures-check (ok a) f q hf w p = hf a q w p
  Ensures-check (err e) f q hf w p = (p, tt)
