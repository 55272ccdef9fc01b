-- ===== src/Catalog/Dao/Laws.antt =====
-- The bounds of a page, and which database errors become which errors of the catalogue.
use wesko_go_backend.Common.{ℕ, ◌≡◌, ap, ◌∙◌, Bool, true, false, arith}
use wesko_go_backend.Common.Int.{ℤ, pos}
use wesko_go_backend.Common.Text.{Text, codes}
use wesko_go_backend.Catalog.Errors.{other, product_slug_already_exists}
use wesko_go_backend.Catalog.Service.Skus.Laws.{◌≤ℤ◌}
use wesko_go_backend.Catalog.Dao.{
  normalize_page, normalize_page_size, normalize_pagination, contains, map_duplicate_error,
  map_db_error,
}

-- A page of at least one, and a size between one and a hundred.
abbrev pub IsPage : ℤ × ℤ → Type 0
IsPage (page, page_size) = (pos 1 ≤ℤ page) × (pos 1 ≤ℤ page_size) × (page_size ≤ℤ pos 100)

normalize_page_lem : (page : ℤ) → pos 1 ≤ℤ normalize_page page
unfolding normalize_page
normalize_page_lem page = ground arith

normalize_page_size_lem :
    (page_size : ℤ)
    → (pos 1 ≤ℤ normalize_page_size page_size) × (normalize_page_size page_size ≤ℤ pos 100)
unfolding normalize_page_size
normalize_page_size_lem page_size = (ground arith, ground arith)

normalize_page_of_page : (page : ℤ) → pos 1 ≤ℤ page → normalize_page page ≡ page
unfolding normalize_page
normalize_page_of_page page h = ground arith

normalize_page_size_of_size :
    (page_size : ℤ)
    → pos 1 ≤ℤ page_size
    → page_size ≤ℤ pos 100
    → normalize_page_size page_size ≡ page_size
unfolding normalize_page_size
normalize_page_size_of_size page_size h k = ground arith

-- Whatever page is asked for, the one that is read is at least the first and has between one and a
-- hundred rows, and normalising it again changes nothing.
pub normalize_pagination-IsPage :
    (page page_size : ℤ)
    → IsPage (normalize_pagination page page_size)
      × (normalize_pagination
            (normalize_pagination page page_size).0
            (normalize_pagination page page_size).1
          ≡ normalize_pagination page page_size)
unfolding normalize_pagination
normalize_pagination-IsPage page page_size =
    let first = normalize_page_lem page in
    let (low, high) = normalize_page_size_lem page_size in
    (
      (first, low, high),
      ap (λ p. (p, normalize_page_size (normalize_page_size page_size)))
            (normalize_page_of_page (normalize_page page) first)
          ∙ ap (λ p. (normalize_page page, p))
              (normalize_page_size_of_size (normalize_page_size page_size) low high),
    )

-- An error that is none of the catalogue's is reported as a taken product slug only if it is a
-- duplicate key, its message speaks of the table of products, and it does not contain the word
-- slug.
pub map_db_error-product_slug :
    (lower : ℕ → ℕ) (duplicated : Bool) (msg : Text) (n : ℕ)
    → map_db_error lower duplicated msg (other n) ≡ product_slug_already_exists
    → (duplicated ≡ true)
      × (contains lower msg (codes "catalog_products") ≡ true)
      × (contains lower msg (codes "slug") ≡ false)
unfolding map_db_error map_duplicate_error
map_db_error-product_slug lower duplicated msg n h = (ground arith, ground arith, ground arith)
