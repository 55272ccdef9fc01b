-- ===== src/Common/Map.antt =====
-- Go maps with string keys. The program never iterates over one, so a map is the function that
-- looks a key up.
use mathlib.Core.Option.{Option, none, some}
use wesko_go_backend.Common.Tests.{if◌then◌else◌}
use wesko_go_backend.Common.Text.{Text, eq}

abbrev pub Map {ℓ} : Type ℓ → Type ℓ
Map V = Text → Option V

module _ {ℓ} {V : Type ℓ} where
  abbrev pub empty : Map V
  empty k = none

  -- m[k] = v
  abbrev pub insert : Text → V → Map V → Map V
  insert k v m j = if eq k j then some v else m j

  -- delete(m, k)
  abbrev pub delete : Text → Map V → Map V
  delete k m j = if eq k j then none else m j
