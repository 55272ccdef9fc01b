-- ===== src/Common/Gorm.antt =====
-- What the two DAOs share of gorm: its errors, its deletion times, and calls that fail with its
-- errors. gorm's Create answers the row as it then is in the database.
use wesko_go_backend.Common.Exec.{Result, ok, err, Exec}
use Prim.Native.Nat.{ℕ}
use mathlib.Core.Bool.{Bool, false}
use wesko_go_backend.Common.Text.{Text}

-- An error of gorm: what errors.Is says of it, its message, and which error it is.
pub record DbError : Type 0 where
  pub record_not_found : Bool
  pub duplicated_key : Bool
  pub message : Text
  pub code : ℕ

abbrev pub DbCall : Type 0 → Type 0 → Type 0
DbCall S A = Exec S DbError A

-- gorm.DeletedAt: a time that counts if it is valid.
pub record DeletedAt : Type 0 where
  pub time : ℕ
  pub valid : Bool

abbrev pub not_deleted : DeletedAt
not_deleted = record { time = 0; valid = false }

module _ {S E A : Type 0} where
  -- A call with its error turned into one of the program's.
  abbrev pub rescue : (DbError → E) → DbCall S A → Exec S E A
  rescue f m w = let (r, w') = m w in (elim r [ ok a ↦ ok a | err e ↦ err (f e) ], w')

  -- A call whose error is looked at.
  abbrev pub tried : DbCall S A → Exec S E (Result DbError A)
  tried m w = let (r, w') = m w in (ok r, w')
