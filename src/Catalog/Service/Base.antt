-- ===== src/Catalog/Service/Base.antt =====
-- The service's fields, and the helpers of catalog/service/service.go that read one value.
use wesko_go_backend.Common.{ℕ, Bool, ◌||◌, Option, none, some}
use wesko_go_backend.Common.Text.{Text, eq, trim_space, to_lower}
use wesko_go_backend.Catalog.Models.{
  ProductStatus, product_status_draft, product_status_active, product_status_inactive,
  product_status_archived,
}
use wesko_go_backend.Catalog.Ports.{Repository}

-- `lower_other` and `upper_other` are unicode.ToLower and unicode.ToUpper off ASCII.
pub record Service (S : Type 0) : Type 0 where
  pub repo : Repository S
  pub lower_other : ℕ → ℕ
  pub upper_other : ℕ → ℕ

-- normalizeSlug
unfoldable pub normalize_slug : {S : Type 0} → Service S → Text → Text
normalize_slug s value = to_lower s.lower_other (trim_space value)

-- isValidStatus
unfoldable pub is_valid_status : ProductStatus → Bool
is_valid_status status =
    eq status product_status_draft
    || eq status product_status_active
    || eq status product_status_inactive
    || eq status product_status_archived

-- `v := d; if p != nil { v = *p }`
unfoldable pub or_default {ℓ} : {A : Type ℓ} → Option A → A → A
or_default none d = d
or_default (some a) d = a

-- `if p != nil { v = strings.TrimSpace(*p) }`
unfoldable pub or_trimmed : Option Text → Text → Text
or_trimmed none d = d
or_trimmed (some a) d = trim_space a

-- `if p != nil { v = p }`, v a pointer
unfoldable pub or_pointer {ℓ} : {A : Type ℓ} → Option A → Option A → Option A
or_pointer none d = d
or_pointer (some a) d = some a
