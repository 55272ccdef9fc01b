-- ===== src/Catalog/Errors.antt =====
-- catalog/errors.go: the sentinel errors. `other` is any error that is none of these, such as one
-- of the database.
use wesko_go_backend.Common.{ℕ, Bool, true, false}

pub data Error : Type 0 where
  invalid_category_name invalid_category_slug : Error
  invalid_product_name invalid_product_slug invalid_product_status : Error
  invalid_sku_code invalid_money_amount invalid_currency : Error
  category_not_found product_not_found sku_not_found job_not_found : Error
  category_slug_already_exists product_slug_already_exists sku_code_already_exists : Error
  other : ℕ → Error

-- IsNotFoundError of catalog/service/service.go
unfoldable pub is_not_found_error : Error → Bool
is_not_found_error category_not_found = true
is_not_found_error product_not_found = true
is_not_found_error sku_not_found = true
is_not_found_error job_not_found = true
is_not_found_error _ = false
