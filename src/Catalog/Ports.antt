-- ===== src/Catalog/Ports.antt =====
-- catalog/catlog_repository.go: the part of the repository interface that the service calls, over a
-- state `S` of the database.
use wesko_go_backend.Common.{ℕ, List}
use wesko_go_backend.Common.Int.{ℤ}
use wesko_go_backend.Common.Exec.{Exec}
use wesko_go_backend.Catalog.Errors.{Error}
use wesko_go_backend.Catalog.Models.{Category, Product, CategoryFilter, ProductFilter}

abbrev pub Call : Type 0 → Type 0 → Type 0
Call S A = Exec S Error A

pub record Repository (S : Type 0) : Type 0 where
  pub create_category : Category → Call S Category
  pub get_category_by_id : ℕ → Call S Category
  pub update_category : Category → Call S Category
  pub delete_category : ℕ → Call S Unit
  pub list_categories : CategoryFilter → Call S (List Category × ℤ)
  pub create_product : Product → Call S Product
  pub get_product_by_id : ℕ → Call S Product
  pub update_product : Product → Call S Product
  pub delete_product : ℕ → Call S Unit
  pub list_products : ProductFilter → Call S (List Product × ℤ)
