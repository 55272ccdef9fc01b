-- ===== src/Catalog/Http/Parse.antt =====
-- parseUintParam of catalog/http/handler.go: strconv.ParseUint in base ten with 64 bits, and the
-- value is not zero.
pub mod Laws
use wesko_go_backend.Common.{ℕ, Option, none, some, ◌==◌, if◌then◌else◌}
use wesko_go_backend.Common.Text.{Text}
use wesko_go_backend.Common.Decimal.{parse_uint}

unfoldable pub parse_uint_param : Text → Option ℕ
parse_uint_param raw = elim (parse_uint raw) [
  | none ↦ none
  | some n ↦ if n == 0 then none else some n
]
