-- ===== src/Common/Decimal.antt =====
-- Numbers in base ten: the loop of strconv.ParseUint and strconv.Atoi.
use Prim.Native.Nat.{ℕ, ◌+◌, ◌-◌, ◌*◌}
use mathlib.Core.Bool.{◌&&◌}
use mathlib.Core.Option.{Option, none, some}
use mathlib.Core.List.{[], ◌∷◌}
use wesko_go_backend.Common.Tests.{ltb, leb, if◌then◌else◌, ◌==◌}
use wesko_go_backend.Common.Int.{ℤ, pos, negsuc}
use wesko_go_backend.Common.Text.{Text}

-- The digits '0' to '9', with the value of those before.
unfoldable pub read_digits : ℕ → Text → Option ℕ
read_digits n [] = some n
read_digits n (c ∷ s) =
    let rest = read_digits (n * 10 + (c - 48)) s in if leb 48 c && leb c 57 then rest else none

-- strconv.ParseUint(s, 10, 64)
unfoldable pub parse_uint : Text → Option ℕ
unfolding read_digits
parse_uint [] = none
parse_uint (c ∷ s) = elim (read_digits 0 (c ∷ s)) [
  | none ↦ none
  | some n ↦ if ltb n 18446744073709551616 then some n else none
]

-- A number of Go's int with its sign.
unfoldable pub signed : ℕ → ℤ
signed n = if n == 0 then pos 0 else negsuc (n - 1)

-- strconv.Atoi
unfoldable pub atoi : Text → Option ℤ
unfolding parse_uint signed
atoi [] = none
atoi (c ∷ s) =
    if c == 45
    then elim (parse_uint s) [
      | none ↦ none
      | some n ↦ if leb n 9223372036854775808 then some (signed n) else none
    ]
    else elim (parse_uint (if c == 43 then s else c ∷ s)) [
      | none ↦ none
      | some n ↦ if ltb n 9223372036854775808 then some (pos n) else none
    ]
