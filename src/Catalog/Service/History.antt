-- ===== src/Catalog/Service/History.antt =====
-- The catalogue's service over any sequence of requests.
use wesko_go_backend.Common.{ℕ, List, [], ◌∷◌, ◌==◌, is_empty, not}
use wesko_go_backend.Common.Int.{ℤ}
use wesko_go_backend.Common.Text.{trim_space}
use wesko_go_backend.Common.Exec.Ensures.{Ensures, Ensures-guard, Ensures-if, Ensures-forget}
use wesko_go_backend.Catalog.Errors.{category_not_found, product_not_found, invalid_product_status}
use wesko_go_backend.Catalog.Models.{Category, Product, CategoryFilter, ProductFilter}
use wesko_go_backend.Catalog.Requests.{
  CreateCategoryRequest, UpdateCategoryRequest, ListCategoriesRequest, CreateProductRequest,
  UpdateProductRequest, ListProductsRequest,
}
use wesko_go_backend.Catalog.Service.Base.{Service, is_valid_status}
use wesko_go_backend.Catalog.Service.Category.{
  create_category, get_category, update_category, delete_category, list_categories,
}
use wesko_go_backend.Catalog.Service.Category.Laws.{
  IsNamed, create_category-Ensures, update_category-Ensures,
}
use wesko_go_backend.Catalog.Service.Product.{
  create_product, get_product, update_product, delete_product, list_products,
}
use wesko_go_backend.Catalog.Service.Product.Laws.{
  IsWellFormed, create_product-Ensures, update_product-Ensures,
}

-- A call of the service.
pub data Request : Type 0 where
  create_category_request : CreateCategoryRequest → Request
  get_category_request : ℕ → Request
  update_category_request : ℕ → UpdateCategoryRequest → Request
  delete_category_request : ℕ → Request
  list_categories_request : ListCategoriesRequest → Request
  create_product_request : CreateProductRequest → Request
  get_product_request : ℕ → Request
  update_product_request : ℕ → UpdateProductRequest → Request
  delete_product_request : ℕ → Request
  list_products_request : ListProductsRequest → Request

module _ {S : Type 0} (s : Service S) where
  -- The database after a call, whether or not the call succeeds.
  unfoldable pub serve : Request → S → S
  serve (create_category_request req) w = (create_category s req w).1
  serve (get_category_request id) w = (get_category s id w).1
  serve (update_category_request id req) w = (update_category s id req w).1
  serve (delete_category_request id) w = (delete_category s id w).1
  serve (list_categories_request req) w = (list_categories s req w).1
  serve (create_product_request req) w = (create_product s req w).1
  serve (get_product_request id) w = (get_product s id w).1
  serve (update_product_request id req) w = (update_product s id req w).1
  serve (delete_product_request id) w = (delete_product s id w).1
  serve (list_products_request req) w = (list_products s req w).1

  -- The database after a list of calls, its last call first.
  unfoldable pub serve_all : List Request → S → S
  unfolding serve
  serve_all [] w = w
  serve_all (r ∷ rs) w = serve r (serve_all rs w)

  -- What a repository does with an invariant of its database that asks rows to be well formed: it
  -- keeps it as long as it is given well-formed rows to store, and what it reads is well formed.
  pub record Respects (P : S → Type 0) : Type 0 where
    pub creates_category : (c : Category) → IsNamed c → Ensures P IsNamed (s.repo.create_category c)
    pub finds_category : (id : ℕ) → Ensures P IsNamed (s.repo.get_category_by_id id)
    pub updates_category : (c : Category) → IsNamed c → Ensures P IsNamed (s.repo.update_category c)
    pub deletes_category : (id : ℕ) → Ensures P (λ _. Unit {0}) (s.repo.delete_category id)
    pub lists_categories :
        (f : CategoryFilter) → Ensures P (λ _. Unit {0}) (s.repo.list_categories f)
    pub creates_product :
        (p : Product) → IsWellFormed s p → Ensures P (IsWellFormed s) (s.repo.create_product p)
    pub finds_product : (id : ℕ) → Ensures P (IsWellFormed s) (s.repo.get_product_by_id id)
    pub updates_product :
        (p : Product) → IsWellFormed s p → Ensures P (IsWellFormed s) (s.repo.update_product p)
    pub deletes_product : (id : ℕ) → Ensures P (λ _. Unit {0}) (s.repo.delete_product id)
    pub lists_products : (f : ProductFilter) → Ensures P (λ _. Unit {0}) (s.repo.list_products f)

module _ {S : Type 0} (s : Service S) (P : S → Type 0) (r : Respects s P) where
  places : (id : ℕ) → Ensures P (λ _. Unit {0}) (s.repo.get_category_by_id id)
  places id = Ensures-forget P IsNamed _ (r.finds_category id)

  get_category-keeps : (id : ℕ) → Ensures P IsNamed (get_category s id)
  unfolding get_category
  get_category-keeps id =
      Ensures-guard P IsNamed (id == 0) category_not_found _ λ _. r.finds_category id

  delete_category-keeps : (id : ℕ) → Ensures P (λ _. Unit {0}) (delete_category s id)
  unfolding delete_category
  delete_category-keeps id =
      Ensures-guard P (λ _. Unit {0}) (id == 0) category_not_found _ λ _. r.deletes_category id

  get_product-keeps : (id : ℕ) → Ensures P (IsWellFormed s) (get_product s id)
  unfolding get_product
  get_product-keeps id =
      Ensures-guard P (IsWellFormed s) (id == 0) product_not_found _ λ _. r.finds_product id

  delete_product-keeps : (id : ℕ) → Ensures P (λ _. Unit {0}) (delete_product s id)
  unfolding delete_product
  delete_product-keeps id =
      Ensures-guard P (λ _. Unit {0}) (id == 0) product_not_found _ λ _. r.deletes_product id

  list_products-keeps :
      (req : ListProductsRequest) → Ensures P (λ _. Unit {0}) (list_products s req)
  unfolding list_products
  list_products-keeps req =
      Ensures-if P (λ (_ : List Product × ℤ). Unit {0}) (is_empty req.status) _ _
        (r.lists_products _)
        λ _.
          Ensures-guard P (λ (_ : List Product × ℤ). Unit {0})
            (not (is_valid_status (trim_space req.status))) invalid_product_status _
            λ _. r.lists_products _

  serve-keeps : (q : Request) (w : S) → P w → P (serve s q w)
  unfolding serve list_categories
  serve-keeps (create_category_request req) w p =
      (create_category-Ensures s P r.creates_category req w p).0
  serve-keeps (get_category_request id) w p = (get_category-keeps id w p).0
  serve-keeps (update_category_request id req) w p =
      (update_category-Ensures s P r.finds_category r.updates_category id req w p).0
  serve-keeps (delete_category_request id) w p = (delete_category-keeps id w p).0
  serve-keeps (list_categories_request req) w p = (r.lists_categories _ w p).0
  serve-keeps (create_product_request req) w p =
      (create_product-Ensures s P places r.creates_product req w p).0
  serve-keeps (get_product_request id) w p = (get_product-keeps id w p).0
  serve-keeps (update_product_request id req) w p =
      (update_product-Ensures s P places r.finds_product r.updates_product id req w p).0
  serve-keeps (delete_product_request id) w p = (delete_product-keeps id w p).0
  serve-keeps (list_products_request req) w p = (list_products-keeps req w p).0

  -- Over any list of calls of the catalogue service, successful or not, the database keeps an
  -- invariant that its repository respects: it keeps it as long as it is only given categories with
  -- a name and a slug and products with a name, a slug, a category, a status and valid units to
  -- store, and what it reads is of that kind.
  pub serve_all-keeps : (rs : List Request) (w : S) → P w → P (serve_all s rs w)
  unfolding serve_all
  serve_all-keeps [] w p = p
  serve_all-keeps (q ∷ rs) w p = serve-keeps q (serve_all s rs w) (serve_all-keeps rs w p)
