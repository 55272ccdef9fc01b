-- ===== src/Catalog/Dao.antt =====
-- The pure parts of catalog/productdao/postgres.go: pages, and the errors of the database.
pub mod Laws
pub mod PartRows
pub mod Rows
pub mod Tables
pub mod Repository
pub mod Category
pub mod Product
pub mod Sku
pub mod Job
use wesko_go_backend.Common.{ℕ, Bool, not, ◌||◌, Option, none, some, List, [], ◌∷◌, if◌then◌else◌}
use wesko_go_backend.Common.Int.{ℤ, pos, ltb_ℤ}
use wesko_go_backend.Common.Text.{Text, codes, includes, to_lower}
use wesko_go_backend.Catalog.Errors.{
  Error, category_slug_already_exists, product_slug_already_exists, sku_code_already_exists,
}

-- `x <= 0` and `x > 100` are written with `<`.
unfoldable pub normalize_page : ℤ → ℤ
normalize_page page = if not (ltb_ℤ (pos 0) page) then pos 1 else page

unfoldable pub normalize_page_size : ℤ → ℤ
normalize_page_size page_size =
    let given = if not (ltb_ℤ (pos 0) page_size) then pos 20 else page_size in
    if ltb_ℤ (pos 100) given then pos 100 else given

-- normalizePagination
unfoldable pub normalize_pagination : ℤ → ℤ → ℤ × ℤ
unfolding normalize_page normalize_page_size
normalize_pagination page page_size = (normalize_page page, normalize_page_size page_size)

-- `lower` is unicode.ToLower off ASCII.
module _ (lower : ℕ → ℕ) where
  unfoldable pub contains : Text → Text → Bool
  unfolding includes
  contains source needle = includes (to_lower lower source) (to_lower lower needle)

  -- mapDuplicateError of an error and its message.
  unfoldable pub map_duplicate_error : Text → Error → Error
  unfolding contains
  map_duplicate_error msg error =
      if contains msg (codes "catalog_categories") || contains msg (codes "slug")
      then category_slug_already_exists
      else if contains msg (codes "catalog_products") || contains msg (codes "slug")
      then product_slug_already_exists
      else if contains msg (codes "catalog_skus") || contains msg (codes "sku_code")
      then sku_code_already_exists
      else error

  -- mapDBError, where `duplicated` is errors.Is(err, gorm.ErrDuplicatedKey).
  unfoldable pub map_db_error : Bool → Text → Error → Error
  unfolding map_duplicate_error
  map_db_error duplicated msg error = if duplicated then map_duplicate_error msg error else error
